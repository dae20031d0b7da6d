-- ===== src/Shortcuts/Tests.antt =====
-- The theorem of the shortcuts at a concrete input.
use mxzz_bi.Prelude.{◌≡◌, not, List, [], ◌∷◌}
use mxzz_bi.Shortcuts.{no_shortcuts, is_empty}
use mxzz_bi.Shortcuts.Listening.{Call, binds, unbinds, calls, bound-calls}

abbrev save_and_run : List Call
save_and_run = binds (("mod+s" ∷ "mod+enter" ∷ [], 1) ∷ []) ∷ unbinds (("mod+s" ∷ [], 1) ∷ []) ∷ []

bound-calls_example :
    (calls save_and_run no_shortcuts).bound "mod+s"
    ≡ not (is_empty ((calls save_and_run no_shortcuts).handlers "mod+s"))
bound-calls_example = bound-calls save_and_run "mod+s"
