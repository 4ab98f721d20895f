-- ===== src/Recorder/Storage/Reading.antt =====
-- What List only does: it reads. Whatever calls fail, the disk stays as it is.
use instachron.Base.{
  ◌≡◌, refl, ◌∙◌, Option, none, some, List, [], ◌∷◌, Result, ok, err, Bool-cases, inl, inr,
}
use instachron.Text.{Text, text_instance}
use instachron.Recorder.Storage.{SegmentInfo, ListFilter, camera_dir, json_name, is_segment_file}
use instachron.Recorder.Storage.Disk.{
  FsError, cancelled, not_exist, not_dir, is_dir, invalid, not_local, io, reading, and_then, fail,
  Folder, Tree, World, M, ◌>>=◌, return, try, ctx_err, read_dir, read_root, read_file,
}
use instachron.Recorder.Storage.Local.{
  Json, read_metadata, parsed, list_read, admit, chosen_cameras, is_directory, list_entries,
  list_cameras, cameras, list,
}

-- A call that only reads.
pub record Reads {A : Type 0} (m : M A) : Type 0 where
  pub keeps : (w : World) → ((m w).1.tree ≡ w.tree) × (w.outcomes ≡ [] → (m w).1.outcomes ≡ [])

pub reading-Reads : {A : Type 0} (e : FsError) (f : Tree → Result FsError A) → Reads (reading e f)
reading-Reads e f = record { keeps = λ w. (refl, λ quiet. rw quiet) }

and_then-Reads :
    {A B : Type 0} (f : A → M B) (w : World) (r : Result FsError A × World)
    → ((a : A) → Reads (f a))
    → (r.1.tree ≡ w.tree) × (w.outcomes ≡ [] → r.1.outcomes ≡ [])
    → ((and_then f r).1.tree ≡ w.tree) × (w.outcomes ≡ [] → (and_then f r).1.outcomes ≡ [])
and_then-Reads f w (err e, w') second first = first
and_then-Reads f w (ok a, w') second first =
    (((second a).keeps w').0 ∙ first.0, λ quiet. ((second a).keeps w').1 (first.1 quiet))

>>=-Reads :
    {A B : Type 0} (m : M A) (f : A → M B) → Reads m → ((a : A) → Reads (f a)) → Reads (m >>= f)
>>=-Reads m f first second = record { keeps = λ w. and_then-Reads f w (m w) second (first.keeps w) }

return-Reads : {A : Type 0} (a : A) → Reads (return a)
return-Reads a = record { keeps = λ w. (refl, λ quiet. quiet) }

fail-Reads : {A : Type 0} (e : FsError) → Reads (fail {A = A} e)
fail-Reads e = record { keeps = λ w. (refl, λ quiet. quiet) }

pub ctx_err-Reads : Reads ctx_err
unfolding ctx_err
ctx_err-Reads = reading-Reads cancelled (λ t. ok tt)

try-Reads : {A : Type 0} (m : M A) → Reads m → Reads (try m)
try-Reads m first = record { keeps = λ w. first.keeps w }

module _ (json : Json) where
  parsed-Reads : (o : Option SegmentInfo) → Reads (parsed json o)
  parsed-Reads none = fail-Reads invalid
  parsed-Reads (some info) = return-Reads _

  pub read_metadata-Reads : (id name : Text) → Reads (read_metadata json id name)
  unfolding read_metadata read_file
  read_metadata-Reads id name =
      >>=-Reads (read_file (camera_dir id) (json_name name)) (λ b. parsed json (json.decode b))
        (reading-Reads io _) (λ b. parsed-Reads (json.decode b))

  list_entries-Reads :
      (filter : ListFilter) (id : Text) (entries : Folder)
      → Reads (list_entries json filter id entries)
  unfolding list_entries
  list_entries-Reads filter id [] = return-Reads []
  list_entries-Reads filter id ((name, i) ∷ entries) =
      elim (Bool-cases (is_segment_file name (is_directory i))) [
        | inl e ↦ rw e (
            >>=-Reads (try (read_metadata json id name)) _
              (try-Reads _ (read_metadata-Reads id name))
              (λ r.
                >>=-Reads (list_entries json filter id entries) _
                  (list_entries-Reads filter id entries)
                  (λ infos. return-Reads (admit filter r infos))))
        | inr e ↦ rw e (list_entries-Reads filter id entries)
      ]

  list_read-Reads :
      (filter : ListFilter) (id : Text) (rest : M (List SegmentInfo)) (r : Result FsError Folder)
      → Reads rest
      → Reads (list_read json filter id rest r)
  list_read-Reads filter id rest (ok entries) h =
      >>=-Reads (list_entries json filter id entries) _ (list_entries-Reads filter id entries)
        (λ infos. >>=-Reads rest _ h (λ more. return-Reads _))
  list_read-Reads filter id rest (err not_exist) h = h
  list_read-Reads filter id rest (err cancelled) h = fail-Reads _
  list_read-Reads filter id rest (err not_dir) h = fail-Reads _
  list_read-Reads filter id rest (err is_dir) h = fail-Reads _
  list_read-Reads filter id rest (err invalid) h = fail-Reads _
  list_read-Reads filter id rest (err not_local) h = fail-Reads _
  list_read-Reads filter id rest (err io) h = fail-Reads _

  list_cameras-Reads :
      (filter : ListFilter) (ids : List Text) → Reads (list_cameras json filter ids)
  unfolding list_cameras read_dir
  list_cameras-Reads filter [] = return-Reads []
  list_cameras-Reads filter (id ∷ ids) =
      >>=-Reads (try (read_dir (camera_dir id))) _ (try-Reads _ (reading-Reads io _)) (λ r.
        list_read-Reads filter id (list_cameras json filter ids) r (list_cameras-Reads filter ids))

  chosen_cameras-Reads : (id : Text) → Reads (chosen_cameras id)
  unfolding cameras read_root
  chosen_cameras-Reads (c ∷ id) = return-Reads _
  chosen_cameras-Reads [] =
      >>=-Reads ctx_err _ ctx_err-Reads
        (λ u. >>=-Reads read_root _ (reading-Reads io _) (λ entries. return-Reads _))

  -- List changes nothing on the disk.
  pub list-Reads : (filter : ListFilter) → Reads (list json filter)
  unfolding list
  list-Reads filter = >>=-Reads ctx_err _ ctx_err-Reads (λ u.
      >>=-Reads (chosen_cameras filter.camera_id) _ (chosen_cameras-Reads filter.camera_id) (λ ids.
        >>=-Reads (list_cameras json filter ids) _ (list_cameras-Reads filter ids)
          (λ out. return-Reads _)))
