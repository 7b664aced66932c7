-- ===== src/Glob/Pattern.antt =====
-- Patterns, their text, and what they match, apart from the loops of utils/glob.c.
use bksupport.Base.{
  ℕ, ◌≡◌, Bool, true, false, not, ◌&&◌, ◌||◌, List, [], ◌∷◌, ◌++◌, Bytes, leb, ◌==◌,
}

-- An element of a class: a byte, or the bytes from one to another.
pub data Part : Type 0 where
  one : ℕ → Part
  range : ℕ → ℕ → Part

pub data Item : Type 0 where
  any many : Item
  byte : ℕ → Item
  escaped : ℕ → Item
  class : Part → List Part → Item

abbrev pub part_text : Part → Bytes
part_text (one a) = a ∷ []
part_text (range a e) = a ∷ b'-' ∷ e ∷ []

abbrev pub parts_text : List Part → Bytes
parts_text [] = []
parts_text (part ∷ parts) = part_text part ++ parts_text parts

abbrev pub item_text : Item → Bytes
item_text any = b'?' ∷ []
item_text many = b'*' ∷ []
item_text (byte c) = c ∷ []
item_text (escaped c) = b'\\' ∷ c ∷ []
item_text (class part parts) = b'[' ∷ (part_text part ++ (parts_text parts ++ b']' ∷ []))

abbrev pub text : List Item → Bytes
text [] = []
text (item ∷ items) = item_text item ++ text items

module _ (lower : ℕ → ℕ) where
  abbrev pub in_part : Part → ℕ → Bool
  in_part (one a) c = lower a == lower c
  in_part (range a e) c = leb (lower a) (lower c) && leb (lower c) (lower e)

  abbrev pub in_parts : List Part → ℕ → Bool
  in_parts [] c = false
  in_parts (part ∷ parts) c = in_part part c || in_parts parts c

  -- The item matches the one byte.
  abbrev pub fits : Item → ℕ → Bool
  fits any c = true
  fits many c = false
  fits (byte d) c = lower c == lower d
  fits (escaped d) c = lower c == lower d
  fits (class part parts) c = in_part part c || in_parts parts c

  -- A string for a pattern: a byte for each item, and any bytes for a `*`.
  pub data Matches : List Item → Bytes → Type 0 where
    done : Matches [] []
    item :
        (i : Item) (items : List Item) (c : ℕ) (s : Bytes)
        → fits i c ≡ true
        → Matches items s
        → Matches (i ∷ items) (c ∷ s)
    no_byte : (items : List Item) (s : Bytes) → Matches items s → Matches (many ∷ items) s
    a_byte :
        (items : List Item) (c : ℕ) (s : Bytes)
        → Matches (many ∷ items) s
        → Matches (many ∷ items) (c ∷ s)

  -- What the loops look for: a `*` at the end takes what is left; one with something behind it takes the bytes up to a
  -- place in the string where the rest begins, and the end is no such place.
  pub data Sought : List Item → Bytes → Type 0 where
    nothing : Sought [] []
    single :
        (i : Item) (items : List Item) (c : ℕ) (s : Bytes)
        → fits i c ≡ true
        → Sought items s
        → Sought (i ∷ items) (c ∷ s)
    all : (s : Bytes) → Sought (many ∷ []) s
    here :
        (i : Item) (items : List Item) (c : ℕ) (s : Bytes)
        → Sought (i ∷ items) (c ∷ s)
        → Sought (many ∷ i ∷ items) (c ∷ s)
    later :
        (i : Item) (items : List Item) (c : ℕ) (s : Bytes)
        → Sought (many ∷ i ∷ items) s
        → Sought (many ∷ i ∷ items) (c ∷ s)

abbrev pub is_single : Item → Bool
is_single many = false
is_single _ = true

-- A `*` directly behind another.
abbrev pub begins_star : List Item → Bool
begins_star [] = false
begins_star (i ∷ items) = not (is_single i)

abbrev pub double_star : List Item → Bool
double_star [] = false
double_star (i ∷ items) = (not (is_single i) && begins_star items) || double_star items

abbrev pub special : Bool → ℕ → Bool
special equals c =
    c == 0 || (c == b'?' || (c == b'[' || ((c == b'=' && equals) || (c == b'*' || c == b'\\'))))

abbrev pub class_special : ℕ → Bool
class_special c = c == 0 || (c == b']' || (c == b'-' || c == b'^'))

-- A part is written with bytes that mean themselves in a class.
abbrev pub IsPart : Part → Type 0
IsPart (one a) = class_special a ≡ false
IsPart (range a e) = (class_special a ≡ false) × (class_special e ≡ false)

abbrev pub AreParts : List Part → Type 0
AreParts [] = Unit
AreParts (part ∷ parts) = IsPart part × AreParts parts

-- A byte of the pattern means itself, unless it is escaped.
abbrev pub IsItem : Bool → Item → Type 0
IsItem equals any = Unit
IsItem equals many = Unit
IsItem equals (byte c) = special equals c ≡ false
IsItem equals (escaped c) = (c == 0) ≡ false
IsItem equals (class part parts) = IsPart part × AreParts parts

abbrev pub AreItems : Bool → List Item → Type 0
AreItems equals [] = Unit
AreItems equals (i ∷ items) = IsItem equals i × AreItems equals items

-- A C string without its null.
abbrev pub IsText : Bytes → Type 0
IsText [] = Unit
IsText (c ∷ s) = ((c == 0) ≡ false) × IsText s

abbrev pub null : Bytes → Bytes
null s = s ++ 0 ∷ []
