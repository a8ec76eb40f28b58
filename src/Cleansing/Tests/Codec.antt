-- ===== src/Cleansing/Tests/Codec.antt =====
-- A writer and a reader of values, in postfix order: the texts of the tests' files.
use automated_outreach_proto.Prelude.{
  ℕ, ◌+◌, ◌-◌, ◌≡◌, refl, ap, ◌∙◌, Bool, true, false, List, [], ◌∷◌, ◌++◌, any, arith, leb, ◌==◌,
  Result, ok, err, value_error, if◌then◌else◌,
}
use automated_outreach_proto.Unicode.{is_surrogate}
use automated_outreach_proto.Text.{Text, is_nil}
use automated_outreach_proto.Json.{
  Json, null, boolean, int, negative, float, str, arr, obj, Items, nil, cons, Fields, end, field,
}
use automated_outreach_proto.Cleansing.PipelineIo.{is_line_break}

pub data Item : Type 0 where
  text : Text → Item
  value : Json → Item
  list : Items → Item
  dict : Fields → Item

-- A character stands for itself, above all line breaks and surrogates.
abbrev shift : ℕ
shift = 0x10000

unfoldable pub push_char : ℕ → List Item → List Item
push_char c (text s ∷ st) = text (c ∷ s) ∷ st
push_char c st = st

-- What a number below the characters asks for.
pub data Op : Type 0 where
  begin a_null a_true a_false an_int a_negative a_float a_str an_arr an_obj no_items an_item
        no_fields a_field :
      Op

unfoldable pub number : Op → ℕ
number begin = 1
number a_null = 2
number a_true = 3
number a_false = 4
number an_int = 5
number a_negative = 6
number a_float = 7
number a_str = 8
number an_arr = 9
number an_obj = 14
number no_items = 15
number an_item = 16
number no_fields = 17
number a_field = 18

unfoldable pub operation : ℕ → Op
operation c =
    if c == 1
    then begin
    else if c == 2
    then a_null
    else if c == 3
    then a_true
    else if c == 4
    then a_false
    else if c == 5
    then an_int
    else if c == 6
    then a_negative
    else if c == 7
    then a_float
    else if c == 8
    then a_str
    else if c == 9
    then an_arr
    else if c == 14
    then an_obj
    else if c == 15
    then no_items
    else if c == 16
    then an_item
    else if c == 17
    then no_fields
    else a_field

-- What it does to the stack.
unfoldable pub act : Op → List Item → List Item
act begin st = text [] ∷ st
act a_null st = value null ∷ st
act a_true st = value (boolean true) ∷ st
act a_false st = value (boolean false) ∷ st
act an_int (text (n ∷ []) ∷ st) = value (int n) ∷ st
act a_negative (text (n ∷ []) ∷ st) = value (negative n) ∷ st
act a_float (text s ∷ st) = value (float s) ∷ st
act a_str (text s ∷ st) = value (str s) ∷ st
act an_arr (list xs ∷ st) = value (arr xs) ∷ st
act an_obj (dict fs ∷ st) = value (obj fs) ∷ st
act no_items st = list nil ∷ st
act an_item (list xs ∷ value x ∷ st) = list (cons x xs) ∷ st
act no_fields st = dict end ∷ st
act a_field (dict fs ∷ value x ∷ text k ∷ st) = dict (field k x fs) ∷ st
act _ st = st

unfoldable pub step : ℕ → List Item → List Item
unfolding push_char act operation
step c st = if leb shift c then push_char (c - shift) st else act (operation c) st

unfoldable pub machine : Text → List Item → List Item
machine [] st = st
machine (c ∷ s) st = machine s (step c st)

unfoldable pub write_text : Text → Text
write_text [] = number begin ∷ []
write_text (c ∷ s) = write_text s ++ ((c + shift) ∷ [])

unfoldable mutual
  pub write : Json → Text
  write null = number a_null ∷ []
  write (boolean true) = number a_true ∷ []
  write (boolean false) = number a_false ∷ []
  write (int n) = number begin ∷ (n + shift) ∷ number an_int ∷ []
  write (negative n) = number begin ∷ (n + shift) ∷ number a_negative ∷ []
  write (float s) = write_text s ++ (number a_float ∷ [])
  write (str s) = write_text s ++ (number a_str ∷ [])
  write (arr xs) = write_items xs ++ (number an_arr ∷ [])
  write (obj fs) = write_fields fs ++ (number an_obj ∷ [])

  pub write_items : Items → Text
  write_items nil = number no_items ∷ []
  write_items (cons x xs) = write x ++ (write_items xs ++ (number an_item ∷ []))

  pub write_fields : Fields → Text
  write_fields end = number no_fields ∷ []
  write_fields (field k x fs) =
      write_text k ++ (write x ++ (write_fields fs ++ (number a_field ∷ [])))

machine-append : (s t : Text) (st : List Item) → machine (s ++ t) st ≡ machine t (machine s st)
unfolding machine
machine-append [] t st = refl
machine-append (c ∷ s) t st = machine-append s t (step c st)

push-step : (c : ℕ) (s : Text) (st : List Item) → step (c + shift) (text s ∷ st) ≡ text (c ∷ s) ∷ st
unfolding step push_char
push-step c s st = ground arith

machine-write_text : (s : Text) (st : List Item) → machine (write_text s) st ≡ text s ∷ st
unfolding machine write_text step act number operation
machine-write_text [] st = refl
machine-write_text (c ∷ s) st =
    machine-append (write_text s) ((c + shift) ∷ []) st
    ∙ ap (machine ((c + shift) ∷ [])) (machine-write_text s st)
    ∙ push-step c s st

step-number : (o : Op) (st : List Item) → step (number o) st ≡ act o st
unfolding step number operation
step-number begin st = refl
step-number a_null st = refl
step-number a_true st = refl
step-number a_false st = refl
step-number an_int st = refl
step-number a_negative st = refl
step-number a_float st = refl
step-number a_str st = refl
step-number an_arr st = refl
step-number an_obj st = refl
step-number no_items st = refl
step-number an_item st = refl
step-number no_fields st = refl
step-number a_field st = refl

machine-number : (o : Op) (st : List Item) → machine (number o ∷ []) st ≡ act o st
unfolding machine
machine-number o st = step-number o st

machine_then :
    (a b : Text) (st : List Item) {st1 st2 : List Item}
    → machine a st ≡ st1
    → machine b st1 ≡ st2
    → machine (a ++ b) st ≡ st2
machine_then a b st h k = machine-append a b st ∙ ap (machine b) h ∙ k

machine-number_text :
    (n : ℕ) (st : List Item) → machine (number begin ∷ (n + shift) ∷ []) st ≡ text (n ∷ []) ∷ st
machine-number_text n st = unfold write_text in machine-write_text (n ∷ []) st

mutual
  unfolding write write_items write_fields act

  machine-write : (x : Json) (st : List Item) → machine (write x) st ≡ value x ∷ st
  machine-write null st = machine-number a_null st
  machine-write (boolean true) st = machine-number a_true st
  machine-write (boolean false) st = machine-number a_false st
  machine-write (int n) st =
      machine_then (number begin ∷ (n + shift) ∷ []) (number an_int ∷ []) st
        (machine-number_text n st) (machine-number an_int _)
  machine-write (negative n) st =
      machine_then (number begin ∷ (n + shift) ∷ []) (number a_negative ∷ []) st
        (machine-number_text n st) (machine-number a_negative _)
  machine-write (float s) st =
      machine_then (write_text s) (number a_float ∷ []) st (machine-write_text s st)
        (machine-number a_float _)
  machine-write (str s) st =
      machine_then (write_text s) (number a_str ∷ []) st (machine-write_text s st)
        (machine-number a_str _)
  machine-write (arr xs) st =
      machine_then (write_items xs) (number an_arr ∷ []) st (machine-write_items xs st)
        (machine-number an_arr _)
  machine-write (obj fs) st =
      machine_then (write_fields fs) (number an_obj ∷ []) st (machine-write_fields fs st)
        (machine-number an_obj _)

  machine-write_items : (xs : Items) (st : List Item) → machine (write_items xs) st ≡ list xs ∷ st
  machine-write_items nil st = machine-number no_items st
  machine-write_items (cons x xs) st = machine_then (write x) _ st (machine-write x st) (
      machine_then (write_items xs) (number an_item ∷ []) (value x ∷ st)
        (machine-write_items xs (value x ∷ st)) (machine-number an_item _))

  machine-write_fields :
      (fs : Fields) (st : List Item) → machine (write_fields fs) st ≡ dict fs ∷ st
  machine-write_fields end st = machine-number no_fields st
  machine-write_fields (field k x fs) st =
      machine_then (write_text k) _ st (machine-write_text k st) (
        machine_then (write x) _ (text k ∷ st) (machine-write x (text k ∷ st)) (
          machine_then (write_fields fs) (number a_field ∷ []) (value x ∷ text k ∷ st)
            (machine-write_fields fs (value x ∷ text k ∷ st)) (machine-number a_field _)))

-- The value on top of the stack.
unfoldable pub top : List Item → Result Json
top (value x ∷ st) = ok x
top _ = err value_error

unfoldable pub read : Text → Result Json
unfolding machine top
read s = top (machine s [])

pub read-write : (x : Json) → read (write x) ≡ ok x
unfolding read
read-write x = unfold top in ap top (machine-write x [])

-- A text without line breaks that is not empty.
pub record IsLine (s : Text) : Type 0 where
  pub whole : any is_line_break s ≡ false
  pub has_text : is_nil s ≡ false
  pub encodes : any is_surrogate s ≡ false

IsLine-append : (a b : Text) → IsLine a → IsLine b → IsLine (a ++ b)
IsLine-append a b h k = record {
  whole = any-append is_line_break a b h.whole k.whole;
  encodes = any-append is_surrogate a b h.encodes k.encodes;
  has_text = nonempty a b h.has_text;
}
  where
    any-append :
        (p : ℕ → Bool) (a b : Text) → any p a ≡ false → any p b ≡ false → any p (a ++ b) ≡ false
    any-append p [] b h k = k
    any-append p (c ∷ a) b h k = ground (arith, any-append p a b (ground arith) k)

    nonempty : (a b : Text) → is_nil a ≡ false → is_nil (a ++ b) ≡ false
    nonempty [] b h = cc
    nonempty (c ∷ a) b h = refl

number-IsLine : (o : Op) → IsLine (number o ∷ [])
unfolding number is_line_break
number-IsLine begin = record { whole = refl; has_text = refl; encodes = refl }
number-IsLine a_null = record { whole = refl; has_text = refl; encodes = refl }
number-IsLine a_true = record { whole = refl; has_text = refl; encodes = refl }
number-IsLine a_false = record { whole = refl; has_text = refl; encodes = refl }
number-IsLine an_int = record { whole = refl; has_text = refl; encodes = refl }
number-IsLine a_negative = record { whole = refl; has_text = refl; encodes = refl }
number-IsLine a_float = record { whole = refl; has_text = refl; encodes = refl }
number-IsLine a_str = record { whole = refl; has_text = refl; encodes = refl }
number-IsLine an_arr = record { whole = refl; has_text = refl; encodes = refl }
number-IsLine an_obj = record { whole = refl; has_text = refl; encodes = refl }
number-IsLine no_items = record { whole = refl; has_text = refl; encodes = refl }
number-IsLine an_item = record { whole = refl; has_text = refl; encodes = refl }
number-IsLine no_fields = record { whole = refl; has_text = refl; encodes = refl }
number-IsLine a_field = record { whole = refl; has_text = refl; encodes = refl }

shift-IsLine : (c : ℕ) → IsLine ((c + shift) ∷ [])
unfolding is_line_break
shift-IsLine c = record { whole = ground arith; has_text = refl; encodes = ground arith }

write_text-IsLine : (s : Text) → IsLine (write_text s)
unfolding write_text
write_text-IsLine [] = number-IsLine begin
write_text-IsLine (c ∷ s) = IsLine-append (write_text s) _ (write_text-IsLine s) (shift-IsLine c)

number_text-IsLine : (n : ℕ) (o : Op) → IsLine (number begin ∷ (n + shift) ∷ number o ∷ [])
number_text-IsLine n o =
    IsLine-append (number begin ∷ []) _ (number-IsLine begin)
      (IsLine-append ((n + shift) ∷ []) _ (shift-IsLine n) (number-IsLine o))

mutual
  unfolding write write_items write_fields

  pub write-IsLine : (x : Json) → IsLine (write x)
  write-IsLine null = number-IsLine a_null
  write-IsLine (boolean true) = number-IsLine a_true
  write-IsLine (boolean false) = number-IsLine a_false
  write-IsLine (int n) = number_text-IsLine n an_int
  write-IsLine (negative n) = number_text-IsLine n a_negative
  write-IsLine (float s) =
      IsLine-append (write_text s) _ (write_text-IsLine s) (number-IsLine a_float)
  write-IsLine (str s) = IsLine-append (write_text s) _ (write_text-IsLine s) (number-IsLine a_str)
  write-IsLine (arr xs) =
      IsLine-append (write_items xs) _ (write_items-IsLine xs) (number-IsLine an_arr)
  write-IsLine (obj fs) =
      IsLine-append (write_fields fs) _ (write_fields-IsLine fs) (number-IsLine an_obj)

  write_items-IsLine : (xs : Items) → IsLine (write_items xs)
  write_items-IsLine nil = number-IsLine no_items
  write_items-IsLine (cons x xs) =
      IsLine-append (write x) _ (write-IsLine x)
        (IsLine-append (write_items xs) _ (write_items-IsLine xs) (number-IsLine an_item))

  write_fields-IsLine : (fs : Fields) → IsLine (write_fields fs)
  write_fields-IsLine end = number-IsLine no_fields
  write_fields-IsLine (field k x fs) = IsLine-append (write_text k) _ (write_text-IsLine k) (
      IsLine-append (write x) _ (write-IsLine x)
        (IsLine-append (write_fields fs) _ (write_fields-IsLine fs) (number-IsLine a_field)))
