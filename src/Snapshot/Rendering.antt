-- ===== src/Snapshot/Rendering.antt =====
-- What the rendered text holds at each line, and that it agrees with `replacement_for_line`.
use mathlib.Core.List.{foldl, reverse, reverse-cons}
use isabelle_repl.Base.{
  ℕ, ℤ, pos, negsuc, suc, zero, ltb_ℤ, ◌≡◌, ◌≢◌, ◌∙◌, ap, refl, String, false, Option, none, some,
  List, [], ◌∷◌, ◌++◌, set, ◌==◌, int_eq, splitlines, length, get_elem?, length-set, arith,
  if◌then◌else◌,
}
use isabelle_repl.Snapshot.Patch.{
  Replacement, find_line, Lines, put_line, add_entry, insert_sorted, sort_lines, set_line,
  patch_lines, patched_lines,
}

abbrev lookup_line : ℤ → Lines → Option String
lookup_line line [] = none
lookup_line line ((l, t) ∷ d) = if l == line then some t else lookup_line line d

abbrev NodupLines : Lines → Type 0
NodupLines [] = Unit
NodupLines ((l, t) ∷ d) = (lookup_line l d ≡ none) × NodupLines d

lookup_line-put_line :
    (k l : ℤ) (t : String) (d : Lines)
    → lookup_line k (put_line l t d) ≡ (if l == k then some t else lookup_line k d)
unfolding put_line
lookup_line-put_line k l t [] = refl
lookup_line-put_line k l t ((j, u) ∷ d) = ground (arith, lookup_line-put_line k l t d)

put_line-NodupLines : (l : ℤ) (t : String) (d : Lines) → NodupLines d → NodupLines (put_line l t d)
unfolding put_line
put_line-NodupLines l t [] h = (refl, tt)
put_line-NodupLines l t ((j, u) ∷ d) h =
    ground (arith, put_line-NodupLines l t d h.1, lookup_line-put_line j l t d)

ltb_ℤ-irrefl : (a : ℤ) → ltb_ℤ a a ≡ false
ltb_ℤ-irrefl (pos a) = ground arith
ltb_ℤ-irrefl (negsuc a) = ground arith

lookup_line-insert_sorted :
    (k l : ℤ) (t : String) (d : Lines)
    → lookup_line k (insert_sorted l t d) ≡ (if l == k then some t else lookup_line k d)
unfolding insert_sorted
lookup_line-insert_sorted k l t [] = refl
lookup_line-insert_sorted k l t ((j, u) ∷ d) =
    ground (arith, lookup_line-insert_sorted k l t d, ltb_ℤ-irrefl l)

insert_sorted-NodupLines :
    (l : ℤ) (t : String) (d : Lines)
    → lookup_line l d ≡ none
    → NodupLines d
    → NodupLines (insert_sorted l t d)
unfolding insert_sorted
insert_sorted-NodupLines l t [] f h = (refl, tt)
insert_sorted-NodupLines l t ((j, u) ∷ d) f h =
    ground (arith, insert_sorted-NodupLines l t d, lookup_line-insert_sorted j l t d)

lookup_line-sort_lines : (k : ℤ) (d : Lines) → lookup_line k (sort_lines d) ≡ lookup_line k d
unfolding sort_lines
lookup_line-sort_lines k [] = refl
lookup_line-sort_lines k ((j, u) ∷ d) =
    ground (arith, lookup_line-insert_sorted k j u (sort_lines d), lookup_line-sort_lines k d)

sort_lines-NodupLines : (d : Lines) → NodupLines d → NodupLines (sort_lines d)
unfolding sort_lines
sort_lines-NodupLines [] h = tt
sort_lines-NodupLines ((j, u) ∷ d) h =
    insert_sorted-NodupLines j u (sort_lines d) (ground (arith, lookup_line-sort_lines j d))
      (sort_lines-NodupLines d h.1)

-- `by_line` holds the last replacement of each positive line.
newest : Option String → Option String → Option String
newest none old = old
newest (some t) old = some t

find_line-append :
    (l : ℤ) (es fs : List Replacement)
    → find_line l (es ++ fs) ≡ newest (find_line l es) (find_line l fs)
unfolding find_line newest
find_line-append l [] fs = refl
find_line-append l (e ∷ es) fs = ground (arith, find_line-append l es fs)

find_line-reverse-cons :
    (l : ℤ) (e : Replacement) (es : List Replacement)
    → find_line l (reverse (e ∷ es))
      ≡ newest
          (find_line l (reverse es))
          (if e.command_line == l then some e.replacement_text else none)
unfolding find_line
find_line-reverse-cons l e es = rw (reverse-cons, find_line-append l (reverse es) (e ∷ []))

lookup_line-add_entry :
    (n : ℕ) (d : Lines) (e : Replacement)
    → lookup_line (pos (suc n)) (add_entry d e)
      ≡ newest
          (if e.command_line == pos (suc n) then some e.replacement_text else none)
          (lookup_line (pos (suc n)) d)
unfolding add_entry newest
lookup_line-add_entry n d e =
    ground (arith, lookup_line-put_line (pos (suc n)) e.command_line e.replacement_text d)

newest_assoc : (a b c : Option String) → newest (newest a b) c ≡ newest a (newest b c)
unfolding newest
newest_assoc none b c = refl
newest_assoc (some a) b c = refl

lookup_line-foldl :
    (n : ℕ) (d : Lines) (es : List Replacement)
    → lookup_line (pos (suc n)) (foldl add_entry d es)
      ≡ newest (find_line (pos (suc n)) (reverse es)) (lookup_line (pos (suc n)) d)
unfolding newest find_line
lookup_line-foldl n d [] = refl
lookup_line-foldl n d (e ∷ es) = cc (
  lookup_line-foldl n (add_entry d e) es,
  lookup_line-add_entry n d e,
  find_line-reverse-cons (pos (suc n)) e es,
  newest_assoc (find_line (pos (suc n)) (reverse es))
      (if e.command_line == pos (suc n) then some e.replacement_text else none)
      (lookup_line (pos (suc n)) d),
)

foldl-NodupLines :
    (d : Lines) (es : List Replacement) → NodupLines d → NodupLines (foldl add_entry d es)
unfolding add_entry
foldl-NodupLines d [] h = h
foldl-NodupLines d (e ∷ es) h =
    foldl-NodupLines (add_entry d e) es
      (ground (arith, put_line-NodupLines e.command_line e.replacement_text d h))

-- The text of a position, from the line's replacement and the text it had.
abbrev pub over : Option String → Option String → Option String
over t none = none
over none (some u) = some u
over (some t) (some u) = some t

get_elem?-set_self :
    (lines : List String) (i : ℕ) (t : String)
    → get_elem? (set lines i t) i ≡ over (some t) (get_elem? lines i)
get_elem?-set_self [] i t = refl
get_elem?-set_self (u ∷ lines) zero t = refl
get_elem?-set_self (u ∷ lines) (suc i) t = get_elem?-set_self lines i t

get_elem?-set_ne :
    (lines : List String) (i j : ℕ) (t : String)
    → i ≢ j
    → get_elem? (set lines i t) j ≡ get_elem? lines j
get_elem?-set_ne [] i j t h = refl
get_elem?-set_ne (u ∷ lines) zero zero t h = absurd (h refl)
get_elem?-set_ne (u ∷ lines) zero (suc j) t h = refl
get_elem?-set_ne (u ∷ lines) (suc i) zero t h = refl
get_elem?-set_ne (u ∷ lines) (suc i) (suc j) t h = get_elem?-set_ne lines i j t (λ e. h (ap suc e))

get_elem?-set_line :
    (l : ℤ) (lines : List String) (i : ℕ) (t : String)
    → get_elem? (set_line l t lines) i
      ≡ over (if l == pos (suc i) then some t else none) (get_elem? lines i)
get_elem?-set_line (pos zero) lines i t = ground arith
get_elem?-set_line (pos (suc k)) lines i t =
    ground (arith, get_elem?-set_self lines i t, get_elem?-set_ne lines k i t)
get_elem?-set_line (negsuc k) lines i t = ground arith

get_elem?-patch_lines :
    (lines : List String) (d : Lines) (i : ℕ)
    → NodupLines d
    → get_elem? (patch_lines lines d) i ≡ over (lookup_line (pos (suc i)) d) (get_elem? lines i)
unfolding patch_lines
get_elem?-patch_lines lines [] i h = ground arith
get_elem?-patch_lines lines ((l, t) ∷ d) i h =
    ground (
      arith,
      get_elem?-patch_lines (set_line l t lines) d i h.1,
      get_elem?-set_line l lines i t,
      h.0,
    )

length-patch_lines : (lines : List String) (d : Lines) → length (patch_lines lines d) ≡ length lines
unfolding patch_lines
length-patch_lines lines [] = refl
length-patch_lines lines ((pos zero, t) ∷ d) = length-patch_lines lines d
length-patch_lines lines ((pos (suc i), t) ∷ d) =
    length-patch_lines (set lines i t) d ∙ length-set lines i t
length-patch_lines lines ((negsuc i, t) ∷ d) = length-patch_lines lines d

newest-none : (t : Option String) → newest t none ≡ t
unfolding newest
newest-none none = refl
newest-none (some t) = refl

module _ (original : String) (es : List Replacement) where
  -- The list of lines that the patched text is joined from is as long as that of the original text.
  pub length-patched_lines : length (patched_lines original es) ≡ length (splitlines original)
  unfolding patched_lines
  length-patched_lines =
      length-patch_lines (splitlines original) (sort_lines (foldl add_entry [] es))

  -- Every line of the original text stands in the list that the patched text is joined from, at its number i + 1, as it was, or as
  -- the last replacement recorded for that number; beyond the last line there is nothing.
  pub get_elem?-patched_lines :
      (i : ℕ)
      → get_elem? (patched_lines original es) i
        ≡ over (find_line (pos (suc i)) (reverse es)) (get_elem? (splitlines original) i)
  unfolding patched_lines
  get_elem?-patched_lines i =
      get_elem?-patch_lines (splitlines original) (sort_lines (foldl add_entry [] es)) i
        (sort_lines-NodupLines (foldl add_entry [] es) (foldl-NodupLines [] es tt))
      ∙ ap (λ o. over o (get_elem? (splitlines original) i))
          (lookup_line-sort_lines (pos (suc i)) (foldl add_entry [] es)
            ∙ lookup_line-foldl i [] es
            ∙ newest-none (find_line (pos (suc i)) (reverse es)))
