-- ===== src/Json.antt =====
-- What `json.loads` returns and `json.dumps` takes, and the standard library's codecs.
-- Floats are their 64 bits; datetimes are microseconds since the epoch, in UTC.
use second_eye.Prelude.{ℕ, ◌++◌, ◌≡◌, ◌≢◌, Option, none, some, Bool, List, All}
use second_eye.Prelude.{◌==◌, list_eq, nat_eq, if◌then◌else◌}
use second_eye.Prelude.Text.{Text, codes}

abbrev pub Bytes : Type 0
Bytes = List ℕ

pub record Float64 : Type 0 where
  pub bits : ℕ

mutual
  pub data Json : Type 0 where
    null : Json
    bool : Bool → Json
    -- an integer that is not negative, and one that is: `neg n` is -(n + 1)
    int : ℕ → Json
    neg : ℕ → Json
    flt : Float64 → Json
    str : Text → Json
    arr : Items → Json
    obj : Fields → Json

  pub data Items : Type 0 where
    nil : Items
    cons : Json → Items → Items

  pub data Fields : Type 0 where
    end : Fields
    field : Text → Json → Fields → Fields

-- `d.get(key)`
unfoldable pub get : Text → Fields → Option Json
get k end = none
get k (field j v fs) = if k == j then some v else get k fs

-- `d[key] = v`
unfoldable pub put : Text → Json → Fields → Fields
put k v end = field k v end
put k v (field j w fs) = if k == j then field j v fs else field j w (put k v fs)

-- `d.update(other)`
unfoldable pub update : Fields → Fields → Fields
unfolding put
update d end = d
update d (field k v fs) = update (put k v d) fs

-- The codecs of the standard library that the program calls; `none` is an exception.
pub record Codecs : Type 0 where
  pub utf8_decode : Bytes → Option Text
  pub utf8_encode : Text → Bytes
  pub b64encode : Bytes → Text
  pub b64decode : Text → Option Bytes
  pub isoformat : ℕ → Text
  pub fromisoformat : Text → Option ℕ
  -- `str` of a value that is no text, and `float` of an int
  pub repr : Json → Text
  pub float_of_int : ℕ → Float64

-- What the documentation of those codecs promises.
pub record Lawful (c : Codecs) : Type 0 where
  pub utf8 : (b : Bytes) (t : Text) → c.utf8_decode b ≡ some t → c.utf8_encode t ≡ b
  pub b64 : (b : Bytes) → c.b64decode (c.b64encode b) ≡ some b
  -- an aware datetime in UTC is printed with its offset, and `Z` is not used
  pub stem : ℕ → Text
  pub isoformat-stem : (t : ℕ) → c.isoformat t ≡ stem t ++ codes "+00:00"
  pub stem_plain : (t : ℕ) → All (λ d. d ≢ b'Z') (stem t)
  pub iso : (t : ℕ) → c.fromisoformat (c.isoformat t) ≡ some t
