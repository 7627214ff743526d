-- ===== src/Builtins/Writing.antt =====
-- `write_file` on the texts of a file system: what it changes and what it leaves.
use yellowbullv.Shared.{
  ℕ, String, ◌≡◌, refl, sym, ap, ◌∙◌, ◌≢◌, Option, some, Bool, true, false, cat, arith,
  if◌then◌else◌, Bool-cases, inl, inr,
}
use yellowbullv.Tools.{ToolResult}
use yellowbullv.Builtins.{
  FileSystem, Raises, ok, raised, Mode, Io, ◌>>=◌, ◌>>◌, pure, ask, Run, returned, with_target,
  is_relative, Failure, result, failure, caught,
}
use yellowbullv.Builtins.WriteFile.{
  mode_of, written, is_folder, size_before, make_parents, write_target, write_file,
}
use yellowbullv.Builtins.Laws.{
  FileLaws, kept, Keeps, pure-Keeps, ask-Keeps, if-Keeps, bind-Keeps, bind-ends, ask-ends,
  pure-ends, caught-NeverSucceeds, with_target-ends,
}

-- The outcome of the block on a path, resolved or not, keeps what the block keeps.
pub with_target-Keeps :
    {S : Type 0}
    → (P : S → Type 0) (handler : Option String → Failure → Run) (r : Raises String)
    → (block : String → Io S ToolResult)
    → ((target : String) → r ≡ ok target → Keeps P (block target))
    → (st : S) → P st
    → P (with_target handler r block st).1
with_target-Keeps P handler (ok target) block k st h = k target refl st h
with_target-Keeps P handler (raised e) block k st h = h

module _ (fs : FileSystem) (laws : FileLaws fs) where
  open laws use {content, mkdir-content, write-others}

  -- What stands in the file at a path is `old`.
  abbrev pub Holds : String → Option String → fs.Store → Type 0
  Holds q old st = content q st ≡ old

  pub mkdir-Keeps :
      (q : String) (old : Option String) (parents : Bool) (p : String)
      → Keeps (Holds q old) (fs.mkdir parents p)
  mkdir-Keeps q old parents p st h = mkdir-content parents p q st ∙ h

  pub write-Keeps :
      (q : String) (old : Option String) (m : Mode) (p c : String)
      → p ≢ q
      → Keeps (Holds q old) (fs.write m p c)
  write-Keeps q old m p c ne st h = write-others m p q c st ne ∙ h

  is_folder-Keeps : (P : fs.Store → Type 0) (target : String) → Keeps P (is_folder fs target)
  unfolding is_folder
  is_folder-Keeps P target =
      bind-Keeps P _ _ (ask-Keeps P _)
        (λ there. if-Keeps P there _ _ (ask-Keeps P _) (pure-Keeps P _))

  size_before-Keeps : (P : fs.Store → Type 0) (target : String) → Keeps P (size_before fs target)
  unfolding size_before
  size_before-Keeps P target =
      bind-Keeps P _ _ (ask-Keeps P _)
        (λ there. if-Keeps P there _ _ (ask-Keeps P _) (pure-Keeps P _))

  make_parents-Keeps :
      (P : fs.Store → Type 0) (dirs : Bool) (target : String)
      → Keeps P (fs.mkdir true (fs.parent target))
      → Keeps P (make_parents fs dirs target)
  unfolding make_parents
  make_parents-Keeps P dirs target made = if-Keeps P dirs _ _ made (pure-Keeps P _)

  write_target-Keeps :
      (P : fs.Store → Type 0) (target c : String) (appending dirs : Bool)
      → Keeps P (fs.mkdir true (fs.parent target))
      → Keeps P (fs.write (mode_of appending) target c)
      → Keeps P (write_target fs target c appending dirs)
  unfolding write_target
  write_target-Keeps P target c appending dirs made wrote =
      bind-Keeps P _ _ (is_folder-Keeps P target) (λ folder.
        if-Keeps P folder _ _ (pure-Keeps P _) (
          bind-Keeps P _ _ (make_parents-Keeps P dirs target made) (λ _.
            bind-Keeps P _ _ (size_before-Keeps P target) (λ before.
              bind-Keeps P _ _ wrote
                (λ _. bind-Keeps P _ _ (ask-Keeps P _) (λ after. pure-Keeps P _))))))

  -- `write_file` changes no file but the one that its path resolves to, however the call ends.
  pub write_file-others :
      (filepath c q : String) (appending dirs : Bool) (st : fs.Store)
      → fs.resolve filepath st ≢ ok q
      → content q (write_file fs filepath c appending dirs st).1 ≡ content q st
  unfolding write_file
  write_file-others filepath c q appending dirs st ne = elim (Bool-cases (is_relative filepath)) [
    | inl e ↦ rw e refl
    | inr e ↦ rw e (
        with_target-Keeps (Holds q (content q st)) (caught "Write failed: ")
          (fs.resolve filepath st) (λ target. write_target fs target c appending dirs)
          (λ target r.
            write_target-Keeps (Holds q (content q st)) target c appending dirs
              (mkdir-Keeps q (content q st) true (fs.parent target))
              (write-Keeps q (content q st) (mode_of appending) target c
                (λ same. ne (r ∙ ap ok same))))
          st refl)
  ]

  -- The call of `write` that a successful answer comes from, in a store where `target` holds what it
  -- held at first.
  pub record Wrote (target c : String) (appending : Bool) (st : fs.Store) (r : ToolResult)
      (st' : fs.Store) : Type 0 where
    pub mid : fs.Store
    pub before : ℕ
    pub after : ℕ
    pub same : content target mid ≡ content target st
    pub wrote : fs.write (mode_of appending) target c mid ≡ (ok tt, st')
    pub sized : fs.size target st' ≡ ok after
    pub said : r ≡ result (written appending target before after c)

  write_end :
      (target c : String) (appending : Bool) (st : fs.Store) (before : ℕ) (mid : fs.Store)
      → content target mid ≡ content target st
      → {r : ToolResult} {st' : fs.Store}
      → (do
        fs.write (mode_of appending) target c
        after ← ask (fs.size target)
        pure (result (written appending target before after c)))
          mid
        ≡ (ok r, st')
      → Wrote target c appending st r st'
  write_end target c appending st before mid same h =
      let (u, s1, wrote, k) = bind-ends _ _ mid h in
      let (after, s2, asked, k2) = bind-ends _ _ s1 k in
      let (sized, e1) = ask-ends _ s1 asked in
      let (said, e2) = pure-ends _ s2 k2 in
      record {
        mid = mid;
        before = before;
        after = after;
        same = same;
        wrote = wrote ∙ ap (λ s. (ok tt, s)) (e1 ∙ e2);
        sized = sym (ap (fs.size target) (e1 ∙ e2)) ∙ sized;
        said = sym said;
      }

  -- A part of a block that keeps the texts and ends.
  kept_by :
      {A : Type 0} (m : Io fs.Store A) (q : String) (old : Option String) (st st' : fs.Store)
      {a : A}
      → Keeps (Holds q old) m
      → content q st ≡ old
      → m st ≡ (ok a, st')
      → content q st' ≡ old
  kept_by m q old st st' k h e = sym (ap (λ x. content q x.1) e) ∙ k st h

  refused : (said : String) (r : ToolResult) → failure said ≡ r → r.success ≡ false
  refused said r e = sym (ap (λ x. x.success) e)

  -- A successful answer of the block comes from one call of `write`.
  pub write_target-Wrote :
      (target c : String) (appending dirs : Bool) (st : fs.Store) {r : ToolResult} {st' : fs.Store}
      → write_target fs target c appending dirs st ≡ (ok r, st')
      → r.success ≡ true
      → Wrote target c appending st r st'
  unfolding write_target
  write_target-Wrote target c appending dirs st {r} {st'} h good =
      let old = content target st in
      let (folder, s1, asked, k) = bind-ends _ _ st h in
      let h1 =
        kept_by (is_folder fs target) target old st s1 (is_folder-Keeps (Holds target old) target)
          refl asked in
      go folder s1 h1 k
    where
      go :
          (folder : Bool) (s1 : fs.Store)
          → content target s1 ≡ content target st
          → (if folder then pure (failure (cat "Path exists and is a directory: " target)) else do
            make_parents fs dirs target
            before ← size_before fs target
            fs.write (mode_of appending) target c
            after ← ask (fs.size target)
            pure (result (written appending target before after c)))
              s1
            ≡ (ok r, st')
          → Wrote target c appending st r st'
      go true s1 h1 k = let (e, e') = pure-ends _ s1 k in let bad = refused _ r e in ground arith
      go false s1 h1 k =
          let old = content target st in
          let (u, s2, made, k2) = bind-ends _ _ s1 k in
          let h2 =
            kept_by (make_parents fs dirs target) target old s1 s2
              (make_parents-Keeps (Holds target old) dirs target (mkdir-Keeps target old true _)) h1
              made in
          let (before, s3, asked, k3) = bind-ends _ _ s2 k2 in
          let h3 =
            kept_by (size_before fs target) target old s2 s3
              (size_before-Keeps (Holds target old) target) h2 asked in
          write_end target c appending st before s3 h3 k3

  -- What `write_file` leaves when it answers with success: the path resolved to `target`, the file
  -- there holds the new text, behind the old one where it appends, and the path still resolves to it.
  pub record Written (filepath c : String) (appending : Bool) (st : fs.Store) (r : ToolResult)
      (st' : fs.Store) : Type 0 where
    pub target : String
    pub resolved : fs.resolve filepath st ≡ ok target
    pub still : fs.resolve filepath st' ≡ ok target
    pub by : Wrote target c appending st r st'
    pub holds : content target st' ≡ some (cat (kept (mode_of appending) (content target st)) c)

  resolve-Keeps :
      (filepath : String) (res : Raises String) (target c : String) (appending dirs : Bool)
      → Keeps (λ s. fs.resolve filepath s ≡ res) (write_target fs target c appending dirs)
  resolve-Keeps filepath res target c appending dirs =
      write_target-Keeps _ target c appending dirs
        (λ s h. laws.mkdir-resolve true (fs.parent target) filepath s ∙ h)
        (λ s h. laws.write-resolve (mode_of appending) target filepath c s ∙ h)

  pub write_file-Written :
      (filepath c : String) (appending dirs : Bool) (st : fs.Store) {r : ToolResult}
      {st' : fs.Store}
      → write_file fs filepath c appending dirs st ≡ (returned r, st')
      → r.success ≡ true
      → Written filepath c appending st r st'
  unfolding write_file
  write_file-Written filepath c appending dirs st {r} {st'} h good =
      elim (Bool-cases (is_relative filepath)) [
        | inl e ↦ let h' = rw e at h in let bad : r.success ≡ false = ground arith in ground arith
        | inr e ↦
            let h' = rw e at h in
            let (target, resolved, ended) =
              with_target-ends (caught "Write failed: ") (caught-NeverSucceeds "Write failed: ")
                (fs.resolve filepath st) (λ t. write_target fs t c appending dirs) st h' good in
            let by = write_target-Wrote target c appending dirs st ended good in
            record {
              target = target;
              resolved = resolved;
              still =
                  ap (λ x. fs.resolve filepath x.1) (sym ended)
                  ∙ resolve-Keeps filepath (ok target) target c appending dirs st resolved;
              by = by;
              holds =
                  laws.write-content (mode_of appending) target c by.mid st' by.wrote
                  ∙ ap (λ o. some (cat (kept (mode_of appending) o) c)) by.same;
            }
      ]
