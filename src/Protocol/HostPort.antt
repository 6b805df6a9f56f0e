-- ===== src/Protocol/HostPort.antt =====
-- Go's `net.JoinHostPort` and `net.SplitHostPort`.
use gforward.Prelude.{
  ℕ, suc, ◌-◌, Bool, false, not, ◌||◌, Option, none, some, List, [], ◌∷◌, ◌++◌, take, drop, get_or,
  ◌==◌, if◌then◌else◌,
}

-- `strings.IndexByte(s, c)` and `strings.LastIndexByte(s, c)`; `none` for -1.
abbrev pub next_index : Option ℕ → Option ℕ
next_index none = none
next_index (some i) = some (suc i)

unfoldable pub index_byte : List ℕ → ℕ → Option ℕ
index_byte [] c = none
index_byte (x ∷ xs) c = if x == c then some 0 else next_index (index_byte xs c)

abbrev pub or_here : Bool → Option ℕ → Option ℕ
or_here here (some i) = some (suc i)
or_here here none = if here then some 0 else none

unfoldable pub last_index_byte : List ℕ → ℕ → Option ℕ
last_index_byte [] c = none
last_index_byte (x ∷ xs) c = or_here (x == c) (last_index_byte xs c)

unfoldable pub contains_byte : List ℕ → ℕ → Bool
contains_byte [] c = false
contains_byte (x ∷ xs) c = x == c || contains_byte xs c

-- A host with a colon is put in square brackets.
unfoldable pub join_host_port : List ℕ → List ℕ → List ℕ
join_host_port host port =
    if contains_byte host b':' then b'[' ∷ (host ++ (b']' ∷ b':' ∷ port)) else host ++ (b':' ∷ port)

abbrev pub split_plain : List ℕ → ℕ → Option (List ℕ × List ℕ)
split_plain s i =
    if contains_byte (take i s) b':'
    then none
    else if contains_byte s b'[' || contains_byte s b']'
    then none
    else some (take i s, drop (suc i) s)

-- `stop` is the index of the first closing bracket, `i` that of the last colon.
abbrev pub split_bracket : List ℕ → ℕ → Option ℕ → Option (List ℕ × List ℕ)
split_bracket s i none = none
split_bracket s i (some stop) =
    if not (suc stop == i)
    then none
    else if contains_byte (drop 1 s) b'[' || contains_byte (drop (suc stop) s) b']'
    then none
    else some (take (stop - 1) (drop 1 s), drop (suc i) s)

abbrev pub split_at_colon : List ℕ → Option ℕ → Option (List ℕ × List ℕ)
split_at_colon s none = none
split_at_colon s (some i) =
    if get_or s 0 0 == b'[' then split_bracket s i (index_byte s b']') else split_plain s i

-- The error's text is not kept: each refusal is `none`.
unfoldable pub split_host_port : List ℕ → Option (List ℕ × List ℕ)
split_host_port s = split_at_colon s (last_index_byte s b':')
