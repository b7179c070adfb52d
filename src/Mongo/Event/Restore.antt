-- ===== src/Mongo/Event/Restore.antt =====
-- The compensation of a change against what the change did to the documents of a collection.
use go_dblog.Prelude.{◌≡◌, ◌≢◌, ◌⊎◌, Option, none, some}
use go_dblog.Prelude.Text.{codes}
use go_dblog.Mongo.Value.{Value, Fields, end, field, get}
use go_dblog.Mongo.Value.Clone.{IsTidy, HasTidy}
use go_dblog.Mongo.Types.{
  operation_insert, operation_update, operation_replace, operation_delete, Change, Command,
}

-- The documents of a collection by their `_id`.
abbrev pub Documents : Type 0 → Type 0
Documents F = Value F → Option (Fields F)

module _ {F : Type 0} where
  abbrev pub key_of : Value F → Fields F
  key_of id = field (codes "_id") id end

  abbrev pub SameElsewhere : Value F → Documents F → Documents F → Type 0
  SameElsewhere id s s' = (j : Value F) → j ≢ id → s' j ≡ s j

  -- What a change says that was done to the document of an id.
  pub data Did (c : Change F) (id : Value F) (s s' : Documents F) : Type 0 where
    inserted : c.operation ≡ operation_insert → s id ≡ none → SameElsewhere id s s' → Did c id s s'
    updated :
        (c.operation ≡ operation_update) ⊎ (c.operation ≡ operation_replace)
        → s id ≡ c.before_document
        → SameElsewhere id s s'
        → Did c id s s'
    deleted :
        c.operation ≡ operation_delete → s id ≡ c.document → SameElsewhere id s s' → Did c id s s'

  -- What MongoDB does with the three commands: delete and replace the document with the `_id` of
  -- the filter, insert the document under its `_id`.
  pub data Runs (cmd : Command F) (s s' : Documents F) : Type 0 where
    deletes :
        (id : Value F)
        → cmd.operation ≡ operation_delete
        → cmd.filter ≡ some (key_of id)
        → s' id ≡ none
        → SameElsewhere id s s'
        → Runs cmd s s'
    replaces :
        (id : Value F)
        → cmd.operation ≡ operation_replace
        → cmd.filter ≡ some (key_of id)
        → s' id ≡ cmd.document
        → SameElsewhere id s s'
        → Runs cmd s s'
    inserts :
        (id : Value F) (document : Fields F)
        → cmd.operation ≡ operation_insert
        → cmd.document ≡ some document
        → get (codes "_id") document ≡ some id
        → s' id ≡ some document
        → SameElsewhere id s s'
        → Runs cmd s s'

  -- A change whose key is the id, whose documents are those of the id, and are tidy.
  pub record IsKeyed (c : Change F) (id : Value F) : Type 0 where
    pub keyed : c.document_key ≡ some (key_of id)
    pub tidy_id : IsTidy id
    pub tidy_before : (d : Fields F) → c.before_document ≡ some d → HasTidy d
    pub tidy_document : (d : Fields F) → c.document ≡ some d → HasTidy d
    pub own_id : (d : Fields F) → c.document ≡ some d → get (codes "_id") d ≡ some id
