-- ===== src/Files.antt =====
-- `createAttachmentsForActor` of src/modules/files/files.service.ts.
use gold_nest.Base.{ℕ, Bool, not, ◌&&◌, List, [], ◌∷◌, ◌++◌, map, length, any, ◌==◌, if◌then◌else◌}
use gold_nest.Table.{Row, Table}
use gold_nest.Tx.{Tx, pure, gets, throw_if, modify, ◌>>=◌, ◌>>◌, files_not_found, files_forbidden}
use gold_nest.Db.{Db, AttachmentEntityType}

-- `file.findMany({ where: { id: { in: ids } } })`: each file once, with the user who uploaded it.
abbrev pub files_in : List ℕ → Table ℕ → Table ℕ
files_in ids [] = []
files_in ids ((id, owner) ∷ files) =
    if any (λ i. i == id) ids then (id, owner) ∷ files_in ids files else files_in ids files

attach_all : ℕ → Bool → List ℕ → AttachmentEntityType → ℕ → Tx Db (Unit {0})
attach_all actor_id is_admin file_ids entity_type entity_id = do
  files ← gets (λ d. files_in file_ids d.file_owners)
  throw_if (not (length files == length file_ids)) files_not_found
  throw_if (not is_admin && any (λ (f : Row ℕ). not (f.1 == actor_id)) files) files_forbidden
  modify (λ d. record d {
    attachments =
        map (λ id. record { file_id = id; entity_type = entity_type; entity_id = entity_id })
          file_ids
        ++ d.attachments;
  })

unfoldable pub create_attachments_for_actor :
    ℕ → Bool → List ℕ → AttachmentEntityType → ℕ → Tx Db (Unit {0})
unfolding attach_all
create_attachments_for_actor actor_id is_admin [] entity_type entity_id = pure tt
create_attachments_for_actor actor_id is_admin (id ∷ ids) entity_type entity_id =
    attach_all actor_id is_admin (id ∷ ids) entity_type entity_id
