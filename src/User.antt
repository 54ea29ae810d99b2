-- ===== src/User.antt =====
-- internal/domain/user/entity.go and repository.go: the users and their columns.
pub mod Service
pub mod Login
pub mod Freshness
mod Samples
use smart_assistant_api.Common.{ℕ, String, Bool, Option, none, some, str_eq, if◌then◌else◌}
use smart_assistant_api.Common.Exec.{Result}
use smart_assistant_api.Store.Query.{Value, text, instant, Condition, Query, new_query, where_eq}
use smart_assistant_api.Store.Meaning.{means}
use smart_assistant_api.Store.Contract.{StoreError, Store}

pub record User : Type 0 where
  pub id : String
  pub email : String
  pub name : String
  pub password : String
  pub role : String
  pub created_at : ℕ
  pub updated_at : ℕ

abbrev pub column : User → String → Option Value
column u field =
    if str_eq field "id"
    then some (text u.id)
    else if str_eq field "email"
    then some (text u.email)
    else if str_eq field "name"
    then some (text u.name)
    else if str_eq field "created_at"
    then some (instant u.created_at)
    else none

abbrev pub holds : User → Condition → Bool
holds u c = means (column u c.field) c.operator c.value

abbrev pub key : User → String
key u = u.id

abbrev pub email_query : String → Query
email_query email = where_eq "email" (text email) new_query

-- FindByEmail
unfoldable pub find_by_email : (st : Store User) → String → st.State → Result StoreError User
find_by_email st email = st.find_one (email_query email)
