-- ===== src/HttpFilesystemResource/Listing.antt =====
-- libhttp-cpp/src/http_directory_listing.cpp: what a listing tells of the entries.
use http_cpp.Base.{
  ◌≡◌, refl, sym, List, [], ◌∷◌, ◌++◌, append_assoc, Bool, true, false, not, ◌&&◌, Text, codes,
  Bool-cases, inl, inr, All, arith, if◌then◌else◌,
}
use mathlib.Core.List.{Perm, perm_middle}
use mathlib.Core.List.Perm
use http_cpp.HttpConstants.{m_get}
use http_cpp.GenericStructure.{GenericRequest, GenericResponse}
use http_cpp.HttpFilesystemResource.{
  DirectoryEntry, FileSystem, http_directory_listing, list_others, list_directories, list_files,
  fetch_resource_content, execute,
}

module _ {ℓ} {A : Type ℓ} where
  abbrev keep : (A → Bool) → List A → List A
  keep p [] = []
  keep p (x ∷ xs) = if p x then x ∷ keep p xs else keep p xs

  -- The three groups of a list, one after the other.
  abbrev grouped : (A → Bool) → (A → Bool) → (A → Bool) → List A → List A
  grouped p q r xs = keep p xs ++ keep q xs ++ keep r xs

  perm_insert : (x : A) (ys zs xs : List A) → Perm (ys ++ zs) xs → Perm (ys ++ (x ∷ zs)) (x ∷ xs)
  perm_insert x ys zs xs p = Perm.trans (perm_middle ys zs) (Perm.cons x p)

module _ (fs : FileSystem) where
  abbrev is_other : DirectoryEntry → Bool
  is_other e = not (fs.is_directory e.path) && not (fs.is_regular_file e.path)

  abbrev is_dir : DirectoryEntry → Bool
  is_dir e = fs.is_directory e.path

  abbrev is_file : DirectoryEntry → Bool
  is_file e = fs.is_regular_file e.path

  -- The line of an entry.
  unfoldable pub entry_line : DirectoryEntry → Text
  entry_line e =
      if is_dir e
      then codes "[DIR] " ++ e.filename ++ codes "\r\n"
      else if is_file e
      then codes "[FILE] " ++ e.filename ++ codes "\r\n"
      else codes "[?] " ++ e.path ++ codes "\r\n"

  abbrev pub entry_lines : List DirectoryEntry → Text
  entry_lines [] = []
  entry_lines (e ∷ es) = entry_line e ++ entry_lines es

  -- Nothing is a directory and a regular file.
  abbrev pub HasOneKind : DirectoryEntry → Type 0
  HasOneKind e = (is_dir e && is_file e) ≡ false

  entry_lines-append :
      (xs ys : List DirectoryEntry) → entry_lines (xs ++ ys) ≡ entry_lines xs ++ entry_lines ys
  entry_lines-append [] ys = refl
  entry_lines-append (x ∷ xs) ys = rw (entry_lines-append xs ys, append_assoc (entry_line x))

  list_others-keep : (es : List DirectoryEntry) → list_others fs es ≡ entry_lines (keep is_other es)
  unfolding list_others entry_line
  list_others-keep [] = refl
  list_others-keep (e ∷ es) = ground (arith, list_others-keep es)

  list_directories-keep :
      (es : List DirectoryEntry) → list_directories fs es ≡ entry_lines (keep is_dir es)
  unfolding list_directories entry_line
  list_directories-keep [] = refl
  list_directories-keep (e ∷ es) = ground (arith, list_directories-keep es)

  list_files-keep :
      (es : List DirectoryEntry)
      → All HasOneKind es
      → list_files fs es ≡ entry_lines (keep is_file es)
  unfolding list_files entry_line
  list_files-keep [] k = refl
  list_files-keep (e ∷ es) (h, k) = ground (arith, list_files-keep es k)

  not_file : (e : DirectoryEntry) → HasOneKind e → is_dir e ≡ true → is_file e ≡ false
  not_file e h dir = ground arith

  abbrev pub by_kind : List DirectoryEntry → List DirectoryEntry
  by_kind = grouped is_other is_dir is_file

  by_kind-Perm : (es : List DirectoryEntry) → All HasOneKind es → Perm (by_kind es) es
  by_kind-Perm [] k = Perm.nil
  by_kind-Perm (e ∷ es) (h, k) = elim (Bool-cases (is_dir e)) [
    | inl dir ↦
        rw (dir, not_file e h dir, append_assoc)
          (perm_insert e (keep is_other es) (keep is_dir es ++ keep is_file es) es (
            rw (sym (append_assoc (keep is_other es) (keep is_dir es) (keep is_file es)))
              (by_kind-Perm es k)))
    | inr plain ↦ elim (Bool-cases (is_file e)) [
      | inl file ↦
          rw (plain, file)
            (perm_insert e (keep is_other es ++ keep is_dir es) (keep is_file es) es
              (by_kind-Perm es k))
      | inr other ↦ rw (plain, other) (Perm.cons e (by_kind-Perm es k))
    ]
  ]

  -- A GET on a directory answers a listing in which every entry of the directory has one line and
  -- nothing else has one, first the entries that are neither directories nor regular files, then
  -- the directories, then the regular files, each group in the order of the directory, when no
  -- entry is both a directory and a regular file.
  pub execute-listing :
      (p : Text) (request : GenericRequest) (response : GenericResponse)
      → request.method ≡ m_get
      → All HasOneKind (fs.entries p)
      → ((execute fs (http_directory_listing p) request response).1.message_body
          ≡ entry_lines (by_kind (fs.entries p)))
        × Perm (by_kind (fs.entries p)) (fs.entries p)
  unfolding execute fetch_resource_content
  execute-listing p request response get k = (
    rw
        (
          get,
          list_others-keep,
          list_directories-keep,
          list_files-keep (fs.entries p) k,
          entry_lines-append,
          entry_lines-append,
        )
        refl,
    by_kind-Perm (fs.entries p) k,
  )
