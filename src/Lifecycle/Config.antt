-- ===== src/Lifecycle/Config.antt =====
-- configure_router_address: the first word of the configuration file is the broker's address.
use rbuscore.Base.{
  ℕ, Bool, ◌&&◌, ◌||◌, Option, none, some, List, [], ◌∷◌, leb, ◌==◌, if◌then◌else◌, Name, c_string,
}

-- `isspace` in the C locale
abbrev pub is_space : ℕ → Bool
is_space c = c == 32 || (leb 9 c && leb c 13)

-- `while(idx1 < len && isspace(buff[idx1])) idx1++`
unfoldable pub skip_space : Name → Name
skip_space [] = []
skip_space (c ∷ s) = if is_space c then skip_space s else c ∷ s

-- `while(idx2 < len && !isspace(buff[idx2])) idx2++`, and what stands before `idx2`
unfoldable pub take_word : Name → Name
take_word [] = []
take_word (c ∷ s) = if is_space c then [] else c ∷ take_word s

-- The word that starts at `idx1`, if `idx1 < len`: its first character is no space.
unfoldable pub word_at : Name → Option Name
word_at [] = none
word_at (c ∷ s) = some (c ∷ take_word s)

-- The first word of a line.
unfoldable pub first_word : Name → Option Name
first_word line = word_at (skip_space (c_string line))

-- The first word of the lines that fgets gives.
unfoldable pub first_word_of_lines : List (List ℕ) → Option Name
first_word_of_lines [] = none
first_word_of_lines (line ∷ lines) = elim (first_word line) [
  | some w ↦ some w
  | none ↦ first_word_of_lines lines
]

-- configure_router_address: the address after the call.
unfoldable pub configure_router_address : Option (List (List ℕ)) → Name → Name
configure_router_address none address = address
configure_router_address (some lines) address = elim (first_word_of_lines lines) [
  | none ↦ address
  | some w ↦ w
]
