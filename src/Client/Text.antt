-- ===== src/Client/Text.antt =====
-- The strings of cli/Session.cpp and cli/Command.h: `std::string` is the list of its bytes.
use zune_sync.Base.{
  ℕ, zero, suc, ◌+◌, ◌==◌, ltb, leb, ◌&&◌, ◌||◌, not, Bool, true, false, if◌then◌else◌, List, [],
  ◌∷◌, ◌++◌, length, take, drop, get_elem?, Option, none, some,
}

-- `find(c)` and `find(c, p)`; none is `npos`.
unfoldable pub find_char : ℕ → List ℕ → Option ℕ
find_char c [] = none
find_char c (x ∷ xs) =
    let rest = find_char c xs in
    if x == c then some 0 else elim rest [ none ↦ none | some i ↦ some (suc i) ]

unfoldable pub find_from : ℕ → ℕ → List ℕ → Option ℕ
find_from c p s = elim (find_char c (drop p s)) [ none ↦ none | some i ↦ some (p + i) ]

-- `rfind(c)`
unfoldable pub rfind : ℕ → List ℕ → Option ℕ
rfind c [] = none
rfind c (x ∷ xs) = elim (rfind c xs) [
  | some i ↦ some (suc i)
  | none ↦ if x == c then some 0 else none
]

unfoldable pub get_filename : List ℕ → List ℕ
get_filename path = elim (rfind b'/' path) [ none ↦ path | some pos ↦ drop (suc pos) path ]

unfoldable pub get_dirname : List ℕ → List ℕ
get_dirname path = elim (rfind b'/' path) [ none ↦ [] | some pos ↦ take pos path ]

-- `tolower` of the "C" locale, in which the client runs.
unfoldable pub to_lower : ℕ → ℕ
to_lower c = if leb b'A' c && leb c b'Z' then c + 32 else c

-- Whether `strncasecmp` is 0: a string that has ended goes on with its terminating zero.
unfoldable pub same_prefix : List ℕ → List ℕ → ℕ → Bool
same_prefix a b zero = true
same_prefix [] [] (suc n) = true
same_prefix [] (y ∷ ys) (suc n) = to_lower y == 0
same_prefix (x ∷ xs) [] (suc n) = to_lower x == 0
same_prefix (x ∷ xs) (y ∷ ys) (suc n) =
    (to_lower x == to_lower y) && ((to_lower x == 0) || same_prefix xs ys n)

unfoldable pub begins_with : List ℕ → List ℕ → Bool
begins_with str prefix =
    if ltb (length str) (length prefix) then false else same_prefix str prefix (length prefix)

-- `EscapePath`
unfoldable pub escape_path : List ℕ → List ℕ
escape_path name = elim (find_char b' ' name) [
  | some i ↦ b'"' ∷ (name ++ (b'"' ∷ []))
  | none ↦ name
]

abbrev pub unknown_time : List ℕ
unknown_time =
    b'?' ∷ b'?' ∷ b'?' ∷ b'?' ∷ b'-' ∷ b'?' ∷ b'?' ∷ b'-' ∷ b'?' ∷ b'?' ∷ b' ' ∷ b'?' ∷ b'?' ∷ b':'
    ∷ b'?' ∷ b'?' ∷ b':' ∷ b'?' ∷ b'?' ∷ []

abbrev pub substr : ℕ → ℕ → List ℕ → List ℕ
substr p n s = take n (drop p s)

-- `timespec[8] != 'T'`
abbrev pub is_at : ℕ → Option ℕ → Bool
is_at c none = false
is_at c (some x) = x == c

unfoldable pub format_time : List ℕ → List ℕ
format_time timespec =
    if length timespec == 0
    then unknown_time
    else if not (length timespec == 15) || not (is_at b'T' (get_elem? timespec 8))
    then timespec
    else substr 0 4 timespec
      ++ (b'-'
          ∷ (substr 4 2 timespec
              ++ (b'-'
                  ∷ (substr 6 2 timespec
                      ++ (b' '
                          ∷ (substr 9 2 timespec
                              ++ (b':'
                                  ∷ (substr 11 2 timespec ++ (b':' ∷ substr 13 2 timespec)))))))))
