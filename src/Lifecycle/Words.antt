-- ===== src/Lifecycle/Words.antt =====
-- The words of a text, and the address that configure_router_address takes from a file.
use rbuscore.Base.{
  ◌≡◌, refl, ◌∙◌, Bool-cases, Option-cases, inl, inr, Option, none, some, List, [], ◌∷◌, ◌++◌,
  if◌then◌else◌, append_assoc, append-nil, ℕ, Name, c_string,
}
use rbuscore.Lifecycle.Config.{
  is_space, skip_space, take_word, word_at, first_word, first_word_of_lines,
  configure_router_address,
}

-- A word that has been read, unless it is empty.
abbrev pub ended : Name → List Name → List Name
ended [] ws = ws
ended (c ∷ word) ws = (c ∷ word) ∷ ws

-- The words of a text behind the part of a word: the longest parts without a space.
unfoldable pub words_behind : Name → Name → List Name
words_behind word [] = ended word []
words_behind word (c ∷ s) =
    let next = words_behind [] s in
    let longer = words_behind (word ++ (c ∷ [])) s in if is_space c then ended word next else longer

abbrev pub words : Name → List Name
words = words_behind []

-- The words of lines, each up to its first NUL.
abbrev pub words_of_lines : List (List ℕ) → List Name
words_of_lines [] = []
words_of_lines (line ∷ lines) = words (c_string line) ++ words_of_lines lines

abbrev pub first : List Name → Option Name
first [] = none
first (w ∷ ws) = some w

abbrev pub or_else : Option Name → Name → Name
or_else none address = address
or_else (some w) address = w

-- Behind the part of a word the first word is that one, with what belongs to it.
first-words_behind :
    (c : ℕ) (word s : Name) → first (words_behind (c ∷ word) s) ≡ some (c ∷ (word ++ take_word s))
unfolding words_behind take_word
first-words_behind c word [] = rw append-nil
first-words_behind c word (x ∷ s) = elim (Bool-cases (is_space x)) [
  | inl space ↦ rw (space, append-nil)
  | inr letter ↦ rw letter (first-words_behind c (word ++ (x ∷ [])) s ∙ rw append_assoc)
]

first-words : (s : Name) → first (words s) ≡ word_at (skip_space s)
unfolding words_behind skip_space word_at
first-words [] = refl
first-words (c ∷ s) = elim (Bool-cases (is_space c)) [
  | inl space ↦ rw space (first-words s)
  | inr letter ↦ rw letter (first-words_behind c [] s)
]

first-append :
    (ws vs : List Name) → first (ws ++ vs) ≡ (elim (first ws) [ some w ↦ some w | none ↦ first vs ])
first-append [] vs = refl
first-append (w ∷ ws) vs = refl

first-words_of_lines :
    (lines : List (List ℕ)) → first_word_of_lines lines ≡ first (words_of_lines lines)
unfolding first_word_of_lines first_word
first-words_of_lines [] = refl
first-words_of_lines (line ∷ lines) =
    let here = first-words (c_string line) in
    rw (first-append (words (c_string line)) (words_of_lines lines), here)
      (elim (Option-cases (word_at (skip_space (c_string line)))) [
        | inl blank ↦ rw (first_word_of_lines, blank) (first-words_of_lines lines)
        | inr (w, there) ↦ rw (first_word_of_lines, there)
      ])

-- configure_router_address sets the address to the first of the words in the lines of the file, a
-- word being a longest part of a line without a space; where there is no word, or no file, the
-- address is as before.
pub configure_router_address-words :
    (lines : Option (List (List ℕ))) (address : Name)
    → configure_router_address lines address
      ≡ (elim lines [ none ↦ address | some ls ↦ or_else (first (words_of_lines ls)) address ])
unfolding configure_router_address
configure_router_address-words none address = refl
configure_router_address-words (some lines) address =
    elim (Option-cases (first_word_of_lines lines)) [
      | inl blank ↦ rw (configure_router_address, ← first-words_of_lines lines, blank)
      | inr (w, there) ↦ rw (configure_router_address, ← first-words_of_lines lines, there)
    ]
