-- ===== src/CString.antt =====
-- The strings of the C code. A `char[256]` stands for the bytes before its terminator; an array
-- that holds 256 bytes and no terminator stands for those 256 bytes.
use ssdd_final.Base.{
  ℕ, ◌<◌, ◌≡◌, refl, ◌↔◌, Bool, true, false, ◌&&◌, ◌||◌, List, [], ◌∷◌, arith, ◌==◌, length, take,
  take_all, replicate, ◌++◌, All, if◌then◌else◌,
}

abbrev pub Bytes : Type 0
Bytes = List ℕ

-- `MAX_VALUE_LENGTH`
abbrev pub max_value_length : ℕ
max_value_length = 256

-- The string that an array of bytes holds.
unfoldable pub c_str : Bytes → Bytes
c_str [] = []
c_str (c ∷ s) = if c == 0 then [] else c ∷ c_str s

-- `memset (array, 0, MAX_VALUE_LENGTH)`, and an array before anything is written to it
abbrev pub zeros : Bytes
zeros = replicate max_value_length 0

-- `strcmp (s, t) == 0`
unfoldable pub strcmp_eq : Bytes → Bytes → Bool
strcmp_eq [] [] = true
strcmp_eq [] (d ∷ t) = false
strcmp_eq (c ∷ s) [] = false
strcmp_eq (c ∷ s) (d ∷ t) = c == d && strcmp_eq s t

-- `strncpy (field, s, MAX_VALUE_LENGTH)`: what the field then stands for
unfoldable pub strncpy : Bytes → Bytes
strncpy s = take max_value_length s

-- `strlen (s) > 0`
unfoldable pub is_set : Bytes → Bool
is_set [] = false
is_set (c ∷ s) = true

-- A field of this length has room for its terminator.
abbrev pub IsTerminated : Bytes → Type 0
IsTerminated s = length s < max_value_length

pub eq_of_strcmp_eq : (s t : Bytes) → strcmp_eq s t ≡ true → s ≡ t
unfolding strcmp_eq
eq_of_strcmp_eq [] [] h = refl
eq_of_strcmp_eq [] (d ∷ t) h = cc
eq_of_strcmp_eq (c ∷ s) [] h = cc
eq_of_strcmp_eq (c ∷ s) (d ∷ t) h = ground (arith, eq_of_strcmp_eq s t)

pub strcmp_eq_refl : (s : Bytes) → strcmp_eq s s ≡ true
unfolding strcmp_eq
strcmp_eq_refl [] = refl
strcmp_eq_refl (c ∷ s) = ground (arith, strcmp_eq_refl s)

pub strcmp_eq_of_eq : (s t : Bytes) → s ≡ t → strcmp_eq s t ≡ true
strcmp_eq_of_eq s t h = rw h (strcmp_eq_refl t)

pub strcmp_eq_iff : (s t : Bytes) → (strcmp_eq s t ≡ true) ↔ (s ≡ t)
strcmp_eq_iff s t = (eq_of_strcmp_eq s t, strcmp_eq_of_eq s t)

pub strncpy_self : (s : Bytes) → IsTerminated s → strncpy s ≡ s
unfolding strncpy
strncpy_self s h = take_all 256 s (omega arith)

-- a byte that may stand in a line: no newline and no terminator
abbrev pub IsLineByte : ℕ → Type 0
IsLineByte c = (c == b'\n' || c == 0) ≡ false

abbrev pub IsLine : Bytes → Type 0
IsLine = All IsLineByte

pub c_str-terminated : (s t : Bytes) → IsLine s → c_str (s ++ 0 ∷ t) ≡ s
unfolding c_str
c_str-terminated [] t h = refl
c_str-terminated (c ∷ s) t h = ground (arith, c_str-terminated s t)
