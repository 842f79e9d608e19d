-- ===== src/Cli/AttachCommand/Tests.antt =====
-- Runs of `keepty attach`.
use keepty.Base.{◌≡◌, refl, true, false, [], ◌∷◌, none}
use keepty.Base.Text.{codes}
use keepty.Cli.AttachCommand.{attaches, helps, refuses, attach_loop}

watches : attach_loop (codes "-w" ∷ codes "work" ∷ []) none false ≡ attaches (codes "work") true
unfolding attach_loop
watches = refl

asks_for_help : attach_loop (codes "work" ∷ codes "-h" ∷ codes "-x" ∷ []) none false ≡ helps
unfolding attach_loop
asks_for_help = refl

unknown : attach_loop (codes "work" ∷ codes "-x" ∷ []) none false ≡ refuses
unfolding attach_loop
unknown = refl
