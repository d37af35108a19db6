-- ===== src/Json.antt =====
-- The documents that the answers of a server hold, and what Python does with them. Numbers are
-- natural: the code reads counts and ids.
use galaxy_ng.Prelude.{
  ℕ, ◌==◌, Text, text_eq, is_nil, Bool, true, false, not, Option, none, some, if◌then◌else◌,
}
use galaxy_ng.Names.Digits.{str}

mutual
  pub data Value : Type 0 where
    null : Value
    flag : Bool → Value
    num : ℕ → Value
    text : Text → Value
    arr : Items → Value
    obj : Members → Value

  pub data Items : Type 0 where
    nil : Items
    cons : Value → Items → Items

  pub data Members : Type 0 where
    end : Members
    field : Text → Value → Members → Members

abbrev pub find_field : Text → Members → Option Value
find_field k end = none
find_field k (field j v fs) = let rest = find_field k fs in if text_eq j k then some v else rest

-- `d[k] = v`: at its place, or behind the others.
abbrev pub set_field : Text → Value → Members → Members
set_field k v end = field k v end
set_field k v (field j w fs) =
    let rest = set_field k v fs in if text_eq j k then field j v fs else field j w rest

abbrev is_end : Members → Bool
is_end end = true
is_end (field k v fs) = false

abbrev is_no_item : Items → Bool
is_no_item nil = true
is_no_item (cons v vs) = false

abbrev pub is_true : Value → Bool
is_true null = false
is_true (flag b) = b
is_true (num n) = not (n == 0)
is_true (text t) = not (is_nil t)
is_true (arr vs) = not (is_no_item vs)
is_true (obj fs) = not (is_end fs)

abbrev pub append_items : Items → Items → Items
append_items nil ws = ws
append_items (cons v vs) ws = cons v (append_items vs ws)

-- The text of an id in an f-string: ids are numbers or texts.
abbrev pub id_text : Value → Option Text
id_text (num n) = some (str n)
id_text (text t) = some t
id_text v = none

-- Equality of ids, as keys of a dictionary.
abbrev pub same_id : Value → Value → Bool
same_id (num m) (num n) = m == n
same_id (text s) (text t) = text_eq s t
same_id v w = false
