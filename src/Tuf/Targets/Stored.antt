-- ===== src/Tuf/Targets/Stored.antt =====
-- What is read of the targets after one is set.
use cosign.Base.{String, Option, none, some}
use cosign.Base.{◌≡◌, ◌≢◌, refl, sym, ap, ◌∙◌, ◌⊎◌, inl, inr, arith}
use cosign.Base.{Error, ok}
use cosign.Base.Maps.{Map, insert}
use cosign.Tuf.{Lib}
use cosign.Tuf.Targets.{
  Cache, memory_cache, disk_cache, Reader, embedded, file, Store, get_by, get, set_by, set, write,
}

module _ (l : Lib) where
  -- What the system promises: a file that is written without an error has what was written, and
  -- the files at other paths stay; making a directory changes no file.
  pub record IsFileSystem : Type 0 where
    pub read_written :
        (files after : l.Files) (path bytes : String)
        → l.write_file files path bytes ≡ (after, none)
        → l.read_file after path ≡ ok bytes
    pub read_other :
        (files after : l.Files) (path other bytes : String) (error : Option Error)
        → l.write_file files path bytes ≡ (after, error)
        → path ≢ other
        → l.read_file after other ≡ l.read_file files other
    pub read_mkdir :
        (files after : l.Files) (dir other : String) (error : Option Error)
        → l.mkdir_all files dir ≡ (after, error)
        → l.read_file after other ≡ l.read_file files other

  -- The client keeps targets on disk where it reads them.
  abbrev pub IsFileStore : String → Store l → Type 0
  IsFileStore base s = (s.reader ≡ file base) × (s.cache ≡ disk_cache base)

  write-ok :
      (s after : Store l) (fp b : String) (m : l.Files × Option Error)
      → write l s fp b m ≡ (after, none)
      → (files : l.Files) × (files' : l.Files) × (m ≡ (files, none))
        × (l.write_file files fp b ≡ (files', none))
        × (after ≡ record s { files = files' })
  unfolding write
  write-ok s after fp b (files, some e) h = absurd (ground arith)
  write-ok s after fp b (files, none) h =
      let w = l.write_file files fp b in
      let e : w.1 ≡ none = ap (λ (r : Store l × Option Error). r.1) h in
      (files, w.0, refl, ap (λ x. (w.0, x)) e, sym (ap (λ (r : Store l × Option Error). r.0) h))

  get-file :
      (s : Store l) (base name : String)
      → s.reader ≡ file base
      → get l s name ≡ l.read_file s.files (l.join base name)
  unfolding get get_by
  get-file s base name r = ap (λ x. get_by l x s name) r

  set-disk :
      (s : Store l) (base name bytes : String)
      → s.cache ≡ disk_cache base
      → set l s name bytes ≡ write l s (l.join base name) bytes (l.mkdir_all s.files base)
  unfolding set set_by
  set-disk s base name bytes c = ap (λ x. set_by l x s name bytes) c

  -- A target that is set on disk is read back, and the targets at other paths stay.
  pub set-get :
      IsFileSystem
      → (base : String) (s after : Store l) (name bytes : String) → IsFileStore base s
      → set l s name bytes ≡ (after, none)
      → IsFileStore base after
        × (get l after name ≡ ok bytes)
        × ((other : String)
            → l.join base name ≢ l.join base other
            → get l after other ≡ get l s other)
  set-get laws base s after name bytes (r, c) h =
      let fp = l.join base name in
      let (files, files', m, w, e) =
        write-ok s after fp bytes (l.mkdir_all s.files base)
          (sym (set-disk s base name bytes c) ∙ h) in
      let r' : after.reader ≡ file base = ap Store.reader e ∙ r in
      let c' : after.cache ≡ disk_cache base = ap Store.cache e ∙ c in
      let f : after.files ≡ files' = ap Store.files e in
      (
        (r', c'),
        get-file after base name r'
            ∙ ap (λ x. l.read_file x fp) f
            ∙ laws.read_written files files' fp bytes w,
        λ other n.
            get-file after base other r'
            ∙ ap (λ x. l.read_file x (l.join base other)) f
            ∙ laws.read_other files files' fp (l.join base other) bytes none w n
            ∙ laws.read_mkdir s.files files base (l.join base other) none m
            ∙ sym (get-file s base other r),
      )

  -- What is set is kept where it is not read: the files of the program are read, or it is kept in
  -- memory.
  abbrev pub IsUnread : Store l → Type 0
  IsUnread s = (s.reader ≡ embedded) ⊎ ((targets : Map String) × (s.cache ≡ memory_cache targets))

  write-frame :
      (s : Store l) (fp b : String) (m : l.Files × Option Error)
      → ((write l s fp b m).0.reader ≡ s.reader) × ((write l s fp b m).0.cache ≡ s.cache)
  unfolding write
  write-frame s fp b (files, none) = (refl, refl)
  write-frame s fp b (files, some e) = (refl, refl)

  set_by-frame :
      (c : Cache) (s : Store l) (name bytes : String)
      → (set_by l c s name bytes).0.reader ≡ s.reader
  unfolding set_by
  set_by-frame (memory_cache targets) s name bytes = refl
  set_by-frame (disk_cache base) s name bytes = (write-frame s _ bytes _).0

  get-embedded :
      (s t : Store l) (name : String)
      → s.reader ≡ embedded
      → t.reader ≡ embedded
      → get l s name ≡ get l t name
  unfolding get get_by
  get-embedded s t name p q = ap (λ x. get_by l x s name) p ∙ ap (λ x. get_by l x t name) (sym q)

  get_by-files :
      (r : Reader) (s t : Store l) (name : String)
      → s.files ≡ t.files
      → get_by l r s name ≡ get_by l r t name
  unfolding get_by
  get_by-files embedded s t name e = refl
  get_by-files (file base) s t name e = ap (λ x. l.read_file x (l.join base name)) e

  -- The store of a client that keeps what is set where it does not read it.
  pub set-IsUnread :
      (s : Store l) (name bytes : String)
      → IsUnread s
      → IsUnread (set l s name bytes).0
        × ((other : String) → get l (set l s name bytes).0 other ≡ get l s other)
  unfolding set get
  set-IsUnread s name bytes (inl r) =
      let e = set_by-frame s.cache s name bytes ∙ r in (inl e, λ other. get-embedded _ s other e r)
  set-IsUnread s name bytes (inr (targets, c)) =
      let e : (set l s name bytes).0
          ≡ record s { cache = memory_cache (insert name bytes targets) } =
        ap (λ x. (set_by l x s name bytes).0) c in
      (
        inr (insert name bytes targets, ap Store.cache e),
        λ other.
            ap (λ (x : Store l). get l x other) e
            ∙ get_by-files s.reader (record s { cache = memory_cache (insert name bytes targets) })
                s other refl,
      )
