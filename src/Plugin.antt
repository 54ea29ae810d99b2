-- ===== src/Plugin.antt =====
-- internal/domain/plugin/entity.go and manifest.go: the catalog's entries. The free-form
-- configuration of an executor is a map of `any`.
use smart_assistant_api.Common.{ℕ, String, Bool, Option, none, some, List, str_eq, if◌then◌else◌}
use smart_assistant_api.Common.Exec.{Result}
use smart_assistant_api.Dynamic.{Args}
use smart_assistant_api.Store.Query.{Value, text, instant, Condition, Query, new_query, where_eq}
use smart_assistant_api.Store.Meaning.{means}
use smart_assistant_api.Store.Contract.{StoreError, Store}

pub record ManifestArgument : Type 0 where
  pub name : String
  pub kind : String
  pub required : Bool
  pub description : String
  pub prompt : String

pub record Executor : Type 0 where
  pub kind : String
  pub config : Args

pub record PluginManifest : Type 0 where
  pub triggers : List String
  pub required_setup : Bool
  pub setup_type : String
  pub arguments : List ManifestArgument
  pub confirmation_required : Bool
  pub executor : Executor

pub record Plugin : Type 0 where
  pub id : String
  pub slug : String
  pub name : String
  pub description : String
  pub version : String
  pub manifest : PluginManifest
  pub created_at : ℕ
  pub updated_at : ℕ

-- The columns by which the repositories look plugins up.
abbrev pub column : Plugin → String → Option Value
column p field =
    if str_eq field "id"
    then some (text p.id)
    else if str_eq field "slug"
    then some (text p.slug)
    else if str_eq field "name"
    then some (text p.name)
    else if str_eq field "created_at"
    then some (instant p.created_at)
    else none

abbrev pub holds : Plugin → Condition → Bool
holds p c = means (column p c.field) c.operator c.value

abbrev pub key : Plugin → String
key p = p.id

abbrev pub slug_query : String → Query
slug_query slug = where_eq "slug" (text slug) new_query

-- repository.go: FindBySlug
unfoldable pub find_by_slug : (st : Store Plugin) → String → st.State → Result StoreError Plugin
find_by_slug st slug = st.find_one (slug_query slug)
