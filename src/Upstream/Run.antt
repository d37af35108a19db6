-- ===== src/Upstream/Run.antt =====
-- A run of the functions of galaxy_ng/app/utils/galaxy.py: what they change, and the exceptions that
-- end them. The server is a parameter, which may answer the same request differently later on.
use galaxy_ng.Prelude.{ℕ, Text, List, ◌∷◌, Option, none, some}
use galaxy_ng.Json.{Value, null, text, arr, obj, Items, find_field, id_text}

-- A body that is no JSON document is none.
pub record Response : Type 0 where
  pub status : ℕ
  pub document : Option Value

-- The answer to the request of this number for this url.
abbrev pub Server : Type 0
Server = ℕ → Text → Response

-- What a generator sends: a namespace, or its data with a collection or role and its versions.
pub data Sent : Type 0 where
  sent_namespace : Value → Value → Sent
  sent_content : Value → Value → Items → Sent

-- The requests so far, the seconds slept, `namespace_cache`, and what was sent, the last one first.
pub record Session : Type 0 where
  pub requests : ℕ
  pub slept : ℕ
  pub cache : List (Value × Value)
  pub sent : List Sent

-- `exhausted` stands for a loop that did not end within the fuel, `strange_id` for ids that are
-- neither numbers nor texts.
pub data Failure : Type 0 where
  key_error type_error index_error attribute_error not_json value_error unsupported strange_id
        exhausted :
      Failure

pub data Step {ℓ} (A : Type ℓ) : Type ℓ where
  ok : A → Session → Step A
  fail : Failure → Session → Step A

abbrev pub Run {ℓ} : Type ℓ → Type ℓ
Run A = Session → Step A

abbrev pub pure {ℓ} : {A : Type ℓ} → A → Run A
pure a w = ok a w

abbrev pub raise {ℓ} : {A : Type ℓ} → Failure → Run A
raise e w = fail e w

abbrev pub after {ℓ κ} : {A : Type ℓ} {B : Type κ} → Step A → (A → Run B) → Step B
after (ok a w) f = f a w
after (fail e w) f = fail e w

infixl 5 ◌>>=◌ ◌>>◌
abbrev pub ◌>>=◌ {ℓ κ} : {A : Type ℓ} {B : Type κ} → Run A → (A → Run B) → Run B
(m >>= f) w = after (m w) f

abbrev pub ◌>>◌ {ℓ κ} : {A : Type ℓ} {B : Type κ} → Run A → Run B → Run B
m >> k = m >>= λ _. k

abbrev pub send : Sent → Run (Unit {0})
send s w = ok tt (record w { sent = s ∷ w.sent })

abbrev pub need {ℓ} : {A : Type ℓ} → Failure → Option A → Run A
need e none = raise e
need e (some a) = pure a

-- `v[k]`
abbrev pub get_key : Text → Value → Run Value
get_key k (obj fs) = need key_error (find_field k fs)
get_key k v = raise type_error

-- `v.get(k)`, None where the key is missing
abbrev pub get_or_none : Text → Value → Run Value
get_or_none k (obj fs) = elim (find_field k fs) [ none ↦ pure null | some v ↦ pure v ]
get_or_none k v = raise attribute_error

-- The items of a list that is iterated. The iteration of a text or of an object is left out.
abbrev pub items_of : Value → Run Items
items_of (arr vs) = pure vs
items_of (obj fs) = raise unsupported
items_of (text t) = raise unsupported
items_of v = raise type_error

-- A text that is concatenated.
abbrev pub text_of : Value → Run Text
text_of (text t) = pure t
text_of v = raise type_error

abbrev pub id_string : Value → Run Text
id_string v = need strange_id (id_text v)

-- `rr.json()`
abbrev pub json : Response → Run Value
json r = need not_json r.document
