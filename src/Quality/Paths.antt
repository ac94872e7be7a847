-- ===== src/Quality/Paths.antt =====
-- Which files the gate looks at, and which of them are glue: the path tests of
-- scripts/quality/lint-touched.py. Texts are code points, and `lower` is that of ASCII.
use unitor_win64_driver.Base.{
  ℕ, Bool, false, ◌&&◌, ◌||◌, not, Option, none, some, List, [], ◌∷◌, Text, codes, ◌==◌,
  if◌then◌else◌, last_or, any, equal, starts_with, contains, lower, replace_char,
}

-- `rel.replace("\\", "/")`
unfoldable pub normalised : Text → Text
normalised = replace_char b'\\' b'/'

abbrev pub in_list : Text → List Text → Bool
in_list a [] = false
in_list a (b ∷ bs) = equal a b || in_list a bs

-- The pieces between the separators
abbrev prepend : ℕ → List Text → List Text
prepend c [] = (c ∷ []) ∷ []
prepend c (piece ∷ pieces) = (c ∷ piece) ∷ pieces

unfoldable pub split_on : ℕ → Text → List Text
split_on sep [] = [] ∷ []
split_on sep (c ∷ cs) = let rest = split_on sep cs in if c == sep then [] ∷ rest else prepend c rest

-- `Path(norm).parts` of a relative path: empty pieces and single dots are dropped.
abbrev is_part : Text → Bool
is_part piece = not (equal piece [] || equal piece (codes "."))

abbrev keep_parts : List Text → List Text
keep_parts [] = []
keep_parts (p ∷ ps) = let rest = keep_parts ps in if is_part p then p ∷ rest else rest

unfoldable pub parts : Text → List Text
unfolding split_on
parts norm = keep_parts (split_on b'/' norm)

-- The text before the last dot, and the text from that dot on
unfoldable pub at_last_dot : Text → Option (Text × Text)
at_last_dot [] = none
at_last_dot (c ∷ cs) = elim (at_last_dot cs) [
  | some (stem, suffix_) ↦ some (c ∷ stem, suffix_)
  | none ↦ if c == b'.' then some ([], c ∷ cs) else none
]

-- A dot that begins or ends the name makes no suffix.
abbrev proper_suffix : Option (Text × Text) → Text
proper_suffix none = []
proper_suffix (some ([], suffix_)) = []
proper_suffix (some (c ∷ stem, [])) = []
proper_suffix (some (c ∷ stem, d ∷ [])) = []
proper_suffix (some (c ∷ stem, d ∷ e ∷ suffix_)) = d ∷ e ∷ suffix_

-- `Path(norm).suffix`
unfoldable pub suffix : Text → Text
unfolding parts at_last_dot
suffix norm = proper_suffix (at_last_dot (last_or [] (parts norm)))

abbrev pub cpp_suffixes : List Text
cpp_suffixes =
    codes ".h" ∷ codes ".hpp" ∷ codes ".hh" ∷ codes ".cpp" ∷ codes ".cc" ∷ codes ".cxx" ∷ []

abbrev pub py_suffixes : List Text
py_suffixes = codes ".py" ∷ []

abbrev pub cpp_scope_prefixes : List Text
cpp_scope_prefixes =
    codes "src/" ∷ codes "tests/" ∷ codes "apps/" ∷ codes "lib/" ∷ codes "tools/" ∷ []

abbrev pub py_scope_prefix : Text
py_scope_prefix = codes "scripts/"

abbrev pub skip_path_parts : List Text
skip_path_parts =
    codes "third_party"
    ∷ codes "third-party"
    ∷ codes "vendor"
    ∷ codes "external"
    ∷ codes "JuceLibraryCode"
    ∷ codes "juce_binarydata"
    ∷ []

abbrev pub glue_path_markers : List Text
glue_path_markers =
    codes "/Usb/"
    ∷ codes "/USB/"
    ∷ codes "/WinUsb/"
    ∷ codes "/WinUSB/"
    ∷ codes "/Platform/"
    ∷ codes "/Interop/"
    ∷ codes "/Install/"
    ∷ codes "/Installer/"
    ∷ []

abbrev pub py_glue_markers : List Text
py_glue_markers = codes "/lab/" ∷ codes "/packaging/" ∷ []

-- `_skip_vendor`
unfoldable pub skip_vendor : Text → Bool
unfolding parts
skip_vendor norm = any (λ skip. in_list skip (parts norm)) skip_path_parts

-- `is_file` tells which paths, from the repository's root, are files.
module _ (is_file : Text → Bool) where
  unfoldable pub is_cpp_gate_target : Text → Bool
  unfolding normalised suffix skip_vendor
  is_cpp_gate_target rel =
      let norm = normalised rel in
      any (λ p. starts_with p norm) cpp_scope_prefixes
      && in_list (lower (suffix norm)) cpp_suffixes
      && not (skip_vendor norm)
      && is_file norm

  unfoldable pub is_py_gate_target : Text → Bool
  unfolding normalised suffix skip_vendor
  is_py_gate_target rel =
      let norm = normalised rel in
      starts_with py_scope_prefix norm
      && in_list (lower (suffix norm)) py_suffixes
      && not (skip_vendor norm)
      && is_file norm

  unfoldable pub is_gate_target : Text → Bool
  unfolding is_cpp_gate_target is_py_gate_target
  is_gate_target rel = is_cpp_gate_target rel || is_py_gate_target rel

unfoldable pub is_glue_path : Text → Bool
unfolding normalised
is_glue_path rel = any (λ marker. contains marker (b'/' ∷ normalised rel)) glue_path_markers

unfoldable pub is_py_glue_path : Text → Bool
unfolding normalised
is_py_glue_path rel = any (λ marker. contains marker (b'/' ∷ normalised rel)) py_glue_markers
