-- ===== src/Config/Tests.antt =====
-- The theorems on configurations at concrete files and targets.
use dark_routev.Base.{All, In, List, String, [], inl, inr, refl, some, ◌∷◌}
use dark_routev.Config.Store.{load_file, load_all}
use dark_routev.Config.Store.Laws.{IsRunnable, load_all-IsUsable, load_all_complete}
use dark_routev.Samples.{vless_base, files}

load_all-IsUsable_example : All IsRunnable (load_all files)
load_all-IsUsable_example = load_all-IsUsable files

load_all_complete_example : In vless_base (load_all files)
unfolding load_file
load_all_complete_example =
    load_all_complete files (record { stem = "home"; content = some vless_base }) vless_base
      (inr (inr (inl refl))) refl refl

domains : List String
domains = "a.example" ∷ "b.example" ∷ []
