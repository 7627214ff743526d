-- ===== src/Builtins/Laws.antt =====
-- What the tools of tools/builtins/ rely on of `pathlib` and `open`, in a process that is alone on its
-- files and where no file has a second name: a record of laws over the text that each file holds.
use yellowbullv.Shared.{
  ℕ, String, ◌≡◌, refl, ap, ◌∙◌, ◌≢◌, Option, none, some, or_empty, Bool, true, false,
  if◌then◌else◌, cat, arith,
}
use mathlib.Core.Option
use yellowbullv.Tools.{ToolResult}
use yellowbullv.Builtins.{
  FileSystem, Raises, ok, raised, Mode, overwrite, append, Io, ◌>>=◌, pure, ask, Run, returned,
  Failure, permission_error, file_exists, other_error, denied, caught, settle, with_target,
}
use yellowbullv.Builtins.Lines.{newlines, utf8_size}

-- What a file keeps when it is opened in a mode.
abbrev pub kept : Mode → Option String → String
kept overwrite old = ""
kept append old = or_empty old

-- `content` is the text of the file at a path, before its line ends are read, where there is a file.
pub record FileLaws (fs : FileSystem) : Type 0 where
  pub content : String → fs.Store → Option String
  pub exists-content :
      (p : String) (st : fs.Store) → fs.exists p st ≡ ok false → content p st ≡ none
  pub read-content :
      (p t : String) (st : fs.Store)
      → fs.read_text p st ≡ ok t
      → Option.map newlines (content p st) ≡ some t
  pub write-content :
      (m : Mode) (p c : String) (st st' : fs.Store)
      → fs.write m p c st ≡ (ok tt, st')
      → content p st' ≡ some (cat (kept m (content p st)) c)
  pub write-others :
      (m : Mode) (p q c : String) (st : fs.Store)
      → p ≢ q
      → content q (fs.write m p c st).1 ≡ content q st
  pub write-found :
      (m : Mode) (p c : String) (st st' : fs.Store)
      → fs.write m p c st ≡ (ok tt, st')
      → (fs.exists p st' ≡ ok true) × (fs.is_file p st' ≡ ok true)
  pub write-size :
      (p c : String) (n : ℕ) (st st' : fs.Store)
      → fs.write overwrite p c st ≡ (ok tt, st')
      → fs.size p st' ≡ ok n
      → n ≡ utf8_size c
  pub write-resolve :
      (m : Mode) (p q c : String) (st : fs.Store)
      → fs.resolve q (fs.write m p c st).1 ≡ fs.resolve q st
  pub mkdir-content :
      (parents : Bool) (p q : String) (st : fs.Store)
      → content q (fs.mkdir parents p st).1 ≡ content q st
  pub mkdir-resolve :
      (parents : Bool) (p q : String) (st : fs.Store)
      → fs.resolve q (fs.mkdir parents p st).1 ≡ fs.resolve q st

-- A block keeps a predicate of the store, whether it ends or raises.
abbrev pub Keeps : {S A : Type 0} → (S → Type 0) → Io S A → Type 0
Keeps {S} P m = (st : S) → P st → P (m st).1

module _ {S A : Type 0} (P : S → Type 0) where
  pub pure-Keeps : (a : A) → Keeps P (pure a)
  unfolding pure
  pure-Keeps a st h = h

  pub ask-Keeps : (f : S → Raises A) → Keeps P (ask f)
  unfolding ask
  ask-Keeps f st h = h

  pub if-Keeps : (b : Bool) (m n : Io S A) → Keeps P m → Keeps P n → Keeps P (if b then m else n)
  if-Keeps true m n hm hn = hm
  if-Keeps false m n hm hn = hn

  after-Keeps :
      {B : Type 0} (r : Raises A) (st : S) (f : A → Io S B)
      → ((a : A) → Keeps P (f a))
      → P st
      → P (let go : Raises B × S = elim r [ ok a ↦ f a st | raised e ↦ (raised e, st) ] in go).1
  after-Keeps (ok a) st f hf h = hf a st h
  after-Keeps (raised e) st f hf h = h

  pub bind-Keeps :
      {B : Type 0} (m : Io S A) (f : A → Io S B)
      → Keeps P m
      → ((a : A) → Keeps P (f a))
      → Keeps P (m >>= f)
  unfolding ◌>>=◌
  bind-Keeps m f hm hf st h = after-Keeps (m st).0 (m st).1 f hf (hm st h)

module _ {S A B : Type 0} where
  ends-inv :
      (r : Raises A) (st : S) (f : A → Io S B) (b : B) (st' : S)
      → (let go : Raises B × S = elim r [ ok a ↦ f a st | raised e ↦ (raised e, st) ] in go)
        ≡ (ok b, st')
      → (a : A) × (r ≡ ok a) × (f a st ≡ (ok b, st'))
  ends-inv (ok a) st f b st' h = (a, refl, h)
  ends-inv (raised e) st f b st' h = ground arith

  -- What a block of two parts that ends has done.
  pub bind-ends :
      (m : Io S A) (f : A → Io S B) (st : S) {b : B} {st' : S}
      → (m >>= f) st ≡ (ok b, st')
      → (a : A) × (st1 : S) × (m st ≡ (ok a, st1)) × (f a st1 ≡ (ok b, st'))
  unfolding ◌>>=◌
  bind-ends m f st {b} {st'} h =
      let (a, e, k) = ends-inv (m st).0 (m st).1 f b st' h in
      (a, (m st).1, ap (λ r. (r, (m st).1)) e, k)

pub ok_inj : {A : Type 0} (a b : A) → ok a ≡ ok b → a ≡ b
ok_inj a b h = ground arith

module _ {S A : Type 0} where
  pub ask-ends :
      (f : S → Raises A) (st : S) {a : A} {st' : S}
      → ask f st ≡ (ok a, st')
      → (f st ≡ ok a) × (st ≡ st')
  unfolding ask
  ask-ends f st h = (ap (λ x. x.0) h, ap (λ x. x.1) h)

  pub pure-ends :
      (a : A) (st : S) {b : A} {st' : S} → pure a st ≡ (ok b, st') → (a ≡ b) × (st ≡ st')
  unfolding pure
  pure-ends a st {b} h = (ok_inj a b (ap (λ x. x.0) h), ap (λ x. x.1) h)

-- A handler of exceptions that reports no success.
abbrev pub NeverSucceeds : (Option String → Failure → Run) → Type 0
NeverSucceeds handler =
    (target : Option String) (e : Failure) (x : ToolResult)
    → handler target e ≡ returned x
    → x.success ≡ false

denied_lem :
    (target : Option String) (x : ToolResult) → denied target ≡ returned x → x.success ≡ false
denied_lem target x h = ground arith

pub caught-NeverSucceeds : (said : String) → NeverSucceeds (caught said)
unfolding caught
caught-NeverSucceeds said target (permission_error e) x h = denied_lem target x h
caught-NeverSucceeds said target (file_exists e) x h = ground arith
caught-NeverSucceeds said target (other_error e) x h = ground arith

settle-ends :
    (handler : Option String → Failure → Run)
    → NeverSucceeds handler
    → (target : String) (r : Raises ToolResult) (x : ToolResult)
    → settle (handler (some target)) r ≡ returned x
    → x.success ≡ true
    → r ≡ ok x
settle-ends handler never target (ok r) x h good = ground arith
settle-ends handler never target (raised e) x h good =
    let bad = never (some target) e x h in ground arith

-- A success comes from a block that ends, on the path that was resolved.
pub with_target-ends :
    {S : Type 0}
    → (handler : Option String → Failure → Run) → NeverSucceeds handler
    → (res : Raises String) (block : String → Io S ToolResult) (st : S) {x : ToolResult} {st' : S}
    → with_target handler res block st ≡ (returned x, st')
    → x.success ≡ true
    → (target : String) × (res ≡ ok target) × (block target st ≡ (ok x, st'))
with_target-ends handler never (raised e) block st {x} h good =
    let bad = never none e x (ap (λ p. p.0) h) in ground arith
with_target-ends handler never (ok target) block st {x} {st'} h good =
    let e = settle-ends handler never target (block target st).0 x (ap (λ p. p.0) h) good in
    let e' = ap (λ p. p.1) h in
    (target, refl, ap (λ r. (r, (block target st).1)) e ∙ ap (λ s. (ok x, s)) e')
