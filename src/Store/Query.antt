-- ===== src/Store/Query.antt =====
-- pkg/store/query.go, and the values that entity fields and conditions hold.
use smart_assistant_api.Common.{ℕ, String, Bool, List, [], ◌∷◌, ◌++◌}

-- A Go `any`: strings, booleans, integers, instants (nanoseconds since the zero time), pointers with
-- their address, nil pointers and slices of strings.
pub data Value : Type 0 where
  text : String → Value
  flag : Bool → Value
  number : ℕ → Value
  instant : ℕ → Value
  pointer : ℕ → Value → Value
  nil : Value
  texts : List String → Value

pub data Operator : Type 0 where
  eq ne gt gte lt lte is_in like : Operator

pub record Condition : Type 0 where
  pub field : String
  pub operator : Operator
  pub value : Value

pub record Order : Type 0 where
  pub field : String
  pub desc : Bool

pub record Query : Type 0 where
  pub conditions : List Condition
  pub orders : List Order
  pub limit : ℕ
  pub offset : ℕ

abbrev pub new_query : Query
new_query = record { conditions = []; orders = []; limit = 0; offset = 0 }

-- where
abbrev pub where_cond : Operator → String → Value → Query → Query
where_cond op field value q = record q {
  conditions = q.conditions ++ record { field = field; operator = op; value = value } ∷ [];
}

abbrev pub where_eq : String → Value → Query → Query
where_eq = where_cond eq

abbrev pub where_ne : String → Value → Query → Query
where_ne = where_cond ne

abbrev pub where_gte : String → Value → Query → Query
where_gte = where_cond gte

abbrev pub where_lt : String → Value → Query → Query
where_lt = where_cond lt

abbrev pub where_lte : String → Value → Query → Query
where_lte = where_cond lte

abbrev pub where_in : String → Value → Query → Query
where_in = where_cond is_in

abbrev pub where_like : String → Value → Query → Query
where_like = where_cond like

abbrev pub order_by : String → Bool → Query → Query
order_by field desc q = record q { orders = q.orders ++ record { field = field; desc = desc } ∷ [] }

abbrev pub paginate_by : ℕ → ℕ → Query → Query
paginate_by limit offset q = record q { limit = limit; offset = offset }
