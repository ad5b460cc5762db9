-- ===== src/Settings/Store.antt =====
-- What `writeSettings` and `readSettings` ask of `QSettings`, which is Qt's: a parameter of the model.
use rssani.Base.{
  ℕ, ◌≡◌, Bool, true, false, ◌&&◌, ◌==◌, Option, none, some, List, ℤ, if◌then◌else◌, QString,
  text_eq,
}
use rssani.Model.{DateTime}

-- The groups that the program uses, each with one array at most.
pub data Group : Type 0 where
  principal regexps trackers irc : Group

-- An entry of a group, an entry of an element of the array of a group, and the size of that array.
pub data Key : Type 0 where
  entry : Group → QString → Key
  element : Group → ℕ → QString → Key
  size : Group → Key

abbrev pub group_eq : Group → Group → Bool
group_eq principal principal = true
group_eq regexps regexps = true
group_eq trackers trackers = true
group_eq irc irc = true
group_eq _ _ = false

abbrev pub key_eq : Key → Key → Bool
key_eq (entry g k) (entry h j) = group_eq g h && text_eq k j
key_eq (element g m k) (element h n j) = group_eq g h && (text_eq k j && m == n)
key_eq (size g) (size h) = group_eq g h
key_eq _ _ = false

-- A `QVariant` of a type that the program stores.
pub data Variant : Type 0 where
  text : QString → Variant
  flag : Bool → Variant
  number : ℤ → Variant
  date : DateTime → Variant
  texts : List QString → Variant

-- The array of a group that a key belongs to.
abbrev pub in_array : Group → Key → Bool
in_array g (element h n k) = group_eq g h
in_array g (size h) = group_eq g h
in_array g (entry h k) = false

-- The conversions `toString`, `toBool`, `toInt`, `toDateTime` (`none` is a null time) and
-- `toStringList` are Qt's too. A file may keep a value as a text: `value` then stands for that text, and
-- a conversion reads it. The laws say that the conversion to the type stored gives back what was
-- stored; the program looks at values by these conversions alone. A store that fails is left out.
pub record QSettings : Type 1 where
  pub Store : Type 0
  pub set_value : Key → Variant → Store → Store
  pub value : Key → Store → Option Variant
  -- `remove( "" )` within the array of a group.
  pub remove_array : Group → Store → Store
  pub to_text : Variant → QString
  pub to_bool : Variant → Bool
  pub to_int : Variant → ℤ
  pub to_date : Variant → Option DateTime
  pub to_texts : Variant → List QString
  pub value-set_value :
      (j k : Key) (v : Variant) (s : Store)
      → value j (set_value k v s) ≡ (if key_eq k j then some v else value j s)
  pub value-remove_array :
      (j : Key) (g : Group) (s : Store)
      → value j (remove_array g s) ≡ (if in_array g j then none else value j s)
  pub to_text_lem : (t : QString) → to_text (text t) ≡ t
  pub to_bool_lem : (b : Bool) → to_bool (flag b) ≡ b
  pub to_int_lem : (n : ℤ) → to_int (number n) ≡ n
  pub to_date_lem : (d : DateTime) → to_date (date d) ≡ some d
  pub to_texts_lem : (l : List QString) → to_texts (texts l) ≡ l
