-- ===== src/Platform/Values.antt =====
-- Values that a canonical document is made of, and the calls into Python's standard library.
use edgeiq.Base.{ℕ, String, Bool, Option, none, some, List, [], ◌∷◌, Eq, ltb, leb}
use native.Mathlib.Decide.{ℕ_discrete}

-- A `datetime`. An aware one is its instant, in microseconds from 0001-01-01T00:00:00Z: two aware
-- values with other offsets are equal, and ordered, by their instants.
pub data DateTime : Type 0 where
  naive : ℕ → DateTime
  aware : ℕ → DateTime

unfoldable pub DateTime_discrete : Discrete DateTime
DateTime_discrete = hlevel ℕ_discrete

instance abbrev pub datetime_eq : Eq DateTime
datetime_eq = record { dec = DateTime_discrete }

abbrev pub instant : DateTime → ℕ
instant (naive t) = t
instant (aware t) = t

-- `a < b` and `a <= b`.
abbrev pub before : DateTime → DateTime → Bool
before a b = ltb (instant a) (instant b)

abbrev pub at_most : DateTime → DateTime → Bool
at_most a b = leb (instant a) (instant b)

-- The instant of 9999-12-31T23:59:59.999999Z, `datetime.max`.
abbrev pub max_instant : ℕ
max_instant = 315537897599999999

-- Floats, keys that are no strings and values of other types occur in no document of the runtime.
mutual
  pub data Value : Type 0 where
    null : Value
    bool : Bool → Value
    int : ℕ → Value
    text : String → Value
    enum : String → Value
    time : DateTime → Value
    array : Items → Value
    object : Fields → Value

  pub data Items : Type 0 where
    nil : Items
    cons : Value → Items → Items

  pub data Fields : Type 0 where
    end : Fields
    field : String → Value → Fields → Fields

abbrev pub items : List Value → Items
items [] = nil
items (v ∷ vs) = cons v (items vs)

abbrev pub fields : List (String × Value) → Fields
fields [] = end
fields ((k, v) ∷ fs) = field k v (fields fs)

abbrev pub document : List (String × Value) → Value
document fs = object (fields fs)

abbrev pub texts : List String → Items
texts [] = nil
texts (s ∷ ss) = cons (text s) (texts ss)

abbrev pub enums : List String → Items
enums [] = nil
enums (s ∷ ss) = cons (enum s) (enums ss)

abbrev pub opt_text : Option String → Value
opt_text none = null
opt_text (some s) = text s

abbrev pub opt_int : Option ℕ → Value
opt_int none = null
opt_int (some n) = int n

abbrev pub opt_time : Option DateTime → Value
opt_time none = null
opt_time (some t) = time t

-- `nfc` is `unicodedata.normalize("NFC", ·)`; `isoformat_z` is the ISO text of a UTC instant with the
-- suffix `Z`; `dumps` is `json.dumps` with the options of `canonical_json`; `encode` is UTF-8;
-- `sha256` is `hashlib.sha256(·).hexdigest()`.
pub record Interpreter : Type 0 where
  pub nfc : String → String
  pub isoformat_z : ℕ → String
  pub dumps : Value → String
  pub encode : String → List ℕ
  pub sha256 : List ℕ → String

abbrev pub Bytes : Type 0
Bytes = List ℕ
