-- ===== src/Settings/Memory.antt =====
-- A settings file that is a function, for the runs: an instance of `QSettings`.
use rssani.Base.{refl, Bool, false, Option, none, some, List, [], ℤ, pos, if◌then◌else◌, QString}
use rssani.Model.{DateTime}
use rssani.Settings.Store.{
  Key, key_eq, in_array, Variant, text, flag, number, date, texts, QSettings,
}

abbrev as_text : Variant → QString
as_text (text t) = t
as_text _ = []

abbrev as_bool : Variant → Bool
as_bool (flag b) = b
as_bool _ = false

abbrev as_int : Variant → ℤ
as_int (number n) = n
as_int _ = pos 0

abbrev as_date : Variant → Option DateTime
as_date (date d) = some d
as_date _ = none

abbrev as_texts : Variant → List QString
as_texts (texts l) = l
as_texts _ = []

abbrev pub ajustes : QSettings
ajustes = record {
  Store = Key → Option Variant;
  set_value = λ k v s j. if key_eq k j then some v else s j;
  value = λ k s. s k;
  remove_array = λ g s j. if in_array g j then none else s j;
  to_text = as_text;
  to_bool = as_bool;
  to_int = as_int;
  to_date = as_date;
  to_texts = as_texts;
  value-set_value = λ j k v s. refl;
  value-remove_array = λ j g s. refl;
  to_text_lem = λ t. refl;
  to_bool_lem = λ b. refl;
  to_int_lem = λ n. refl;
  to_date_lem = λ d. refl;
  to_texts_lem = λ l. refl;
}
