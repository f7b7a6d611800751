-- ===== src/Toolpolicy/Path/Tests.antt =====
-- A concrete file system for the theorems of Toolpolicy: paths are code points, the parent of a path
-- drops its first, and everything but the empty path is missing.
use foxharness.Prelude.{false, [], ◌∷◌, some, Text, codes, eqb}
use foxharness.Toolpolicy.Path.{FileSystem}

abbrev parent : Text → Text
parent [] = []
parent (c ∷ s) = s

abbrev pub toy : FileSystem
toy = record {
  trim_space = λ s. s;
  clean_path = λ s. s;
  is_abs = λ s. false;
  join = λ ps. [];
  rel = λ a b. some (codes ".");
  exists = λ s. eqb s [];
  dir = parent;
  base = λ s. s;
  eval_symlinks = λ s. some s;
}
