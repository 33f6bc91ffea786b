-- ===== src/Json.antt =====
-- The values that `json.loads` returns and `json.dumps` takes. Reading and printing them is a
-- parameter of the modules that do it.
use nightswatch.Prelude.{
  ℕ, String, Bool, ◌≡◌, refl, Option, none, some, str_eq, eq_iff, if◌then◌else◌, arith,
}

-- A number is an integer in `integer`, any other in `float`, in millionths; `minus` is its sign.
mutual
  pub data Json : Type 0 where
    null : Json
    bool : Bool → Json
    integer : (minus : Bool) → ℕ → Json
    float : (minus : Bool) → (millionths : ℕ) → Json
    text : String → Json
    array : Items → Json
    object : Fields → Json

  pub data Items : Type 0 where
    nil : Items
    cons : Json → Items → Items

  pub data Fields : Type 0 where
    end : Fields
    field : String → Json → Fields → Fields

-- `d.get(k)`
unfoldable pub get : String → Fields → Option Json
get k end = none
get k (field j v d) = if str_eq j k then some v else get k d

-- `d[k] = v`
unfoldable pub set : String → Json → Fields → Fields
set k v end = field k v end
set k v (field j w d) = if str_eq j k then field j v d else field j w (set k v d)

-- `get` after `set`, in the one form that serves both keys.
pub get-set :
    (k j : String) (v : Json) (d : Fields)
    → get j (set k v d) ≡ (if str_eq k j then some v else get j d)
unfolding get set
get-set k j v end = refl
get-set k j v (field i w d) = ground (arith, eq_iff k j, eq_iff i k, eq_iff i j, get-set k j v d)
