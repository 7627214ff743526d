-- ===== src/Builtins/Reading.antt =====
-- `read_file` on a file that can be read: the lines that it shows, and the text that `write_file` left.
use yellowbullv.Shared.{
  ℕ, suc, ◌+◌, ◌-◌, String, ◌≡◌, refl, sym, ap, ◌∙◌, Option, none, some, Bool, true, false, cat,
  concat, join, arith, List, ◌++◌, length, max,
}
use mathlib.Core.Option
use text.Mathlib.TextLemmas
use yellowbullv.Shared.Json.{ℤ, pos}
use yellowbullv.Tools.{ToolResult}
use yellowbullv.Builtins.{FileSystem, ok, overwrite, ◌>>=◌, pure, ask, Run, returned, result}
use yellowbullv.Builtins.Lines.{
  split_lines, rstrip, slice_whole, slice_middle, concat-split_lines, newlines, utf8_size,
}
use yellowbullv.Builtins.ReadFile.{too_large, clamped, info_parts, shown, read_target, read_file}
use yellowbullv.Builtins.WriteFile.{write_file}
use yellowbullv.Builtins.Laws.{FileLaws, kept, ok_inj}
use yellowbullv.Builtins.Writing.{write_file-Written}

-- A file of a text and a size that can be read at a path.
pub record Readable (fs : FileSystem) (filepath target text : String) (bytes : ℕ) (st : fs.Store)
    : Type 0 where
  pub resolved : fs.resolve filepath st ≡ ok target
  pub there : fs.exists target st ≡ ok true
  pub file : fs.is_file target st ≡ ok true
  pub sized : fs.size target st ≡ ok bytes
  pub opened : fs.read_text target st ≡ ok text

read_target_lem :
    (fs : FileSystem) (filepath target text : String) (bytes : ℕ) (st : fs.Store)
    → Readable fs filepath target text bytes st
    → (start_line : ℤ) (end_line : Option ℤ) (max_bytes : ℤ) → too_large bytes max_bytes ≡ false
    → read_target fs target start_line end_line max_bytes st
      ≡ (ok (result (shown target bytes (clamped start_line) end_line text)), st)
unfolding read_target ◌>>=◌ ask pure
read_target_lem fs filepath target text bytes st h start_line end_line max_bytes small =
    rw (h.there, h.file, h.sized, small, h.opened) refl

read_file_lem :
    (fs : FileSystem) (filepath target text : String) (bytes : ℕ) (st : fs.Store)
    → Readable fs filepath target text bytes st
    → (start_line : ℤ) (end_line : Option ℤ) (max_bytes : ℤ) → too_large bytes max_bytes ≡ false
    → read_file fs filepath start_line end_line max_bytes st
      ≡ (returned (result (shown target bytes (clamped start_line) end_line text)), st)
unfolding read_file
read_file_lem fs filepath target text bytes st h start_line end_line max_bytes small =
    rw
      (
        h.resolved,
        read_target_lem fs filepath target text bytes st h start_line end_line max_bytes small,
      )
      refl

-- The answer for a file of `total` lines: what stands above the text, and the text.
abbrev pub answer : String → ℕ → ℕ → ℕ → Option ℤ → String → Run
answer target total bytes start end_line body =
    returned
      (result (cat (join "\n" (info_parts target total bytes start end_line)) (cat "\n---\n" body)))

some_inj : (a b : String) → some a ≡ some b → a ≡ b
some_inj a b h = ground arith

suc_sub : (n : ℕ) → suc n - 1 ≡ n
suc_sub n = omega arith

max_one : (n : ℕ) → max 1 (suc n) ≡ suc n
max_one n = omega arith

-- Where a file can be read, has the lines `before`, `window` and `after`, and is within the limit of
-- `read_file` (ten times `max_bytes`, whatever part of it is asked for): reading it from the first line
-- of the window to its last shows that window, under the file's total of lines, and leaves the store.
pub read_file-window :
    (fs : FileSystem) (filepath target text : String) (bytes : ℕ) (st : fs.Store)
    → Readable fs filepath target text bytes st
    → (before window after : List String) → split_lines text ≡ before ++ (window ++ after)
    → (max_bytes : ℤ) → too_large bytes max_bytes ≡ false
    → let first = suc (length before) in
      let last = length before + length window in
      read_file fs filepath (pos first) (some (pos last)) max_bytes st ≡ (
        answer target
            (length (before ++ (window ++ after)))
            bytes
            first
            (some (pos last))
            (rstrip (concat window)),
        st,
      )
unfolding shown
read_file-window fs filepath target text bytes st h before window after lines max_bytes small =
    read_file_lem fs filepath target text bytes st h _ _ max_bytes small
    ∙ rw (max_one (length before), lines, suc_sub (length before), slice_middle before window after)
        refl

-- The answer on the whole of a file.
read_file_whole :
    (fs : FileSystem) (filepath target text : String) (bytes : ℕ) (st : fs.Store)
    → Readable fs filepath target text bytes st
    → (max_bytes : ℤ) → too_large bytes max_bytes ≡ false
    → read_file fs filepath (pos 1) none max_bytes st
      ≡ (answer target (length (split_lines text)) bytes 1 none (rstrip text), st)
unfolding shown
read_file_whole fs filepath target text bytes st h max_bytes small =
    read_file_lem fs filepath target text bytes st h _ _ max_bytes small
    ∙ rw (slice_whole (split_lines text), concat-split_lines text) refl

-- The text that stands in a file after a call of `write_file`.
text_written :
    (fs : FileSystem) (laws : FileLaws fs) (target c t : String) (old : Option String)
    (st : fs.Store)
    → laws.content target st ≡ some (cat (kept overwrite old) c)
    → fs.read_text target st ≡ ok t
    → t ≡ newlines c
text_written fs laws target c t old st holds opened =
    let e = laws.read-content target t st opened in
    let e' = ap (Option.map newlines) (holds ∙ ap some (TextLemmas.nil-append c)) in
    some_inj t (newlines c) (sym e ∙ e')

-- Where `write_file`, told to overwrite, reports a success on a path that resolves to `target`, where
-- the file can be opened as a text afterwards, and where the size of what was written is within the
-- limit of `read_file` (ten times its `max_bytes`): reading the path from the first line to the last
-- answers with the text that was written, with its line ends as "\n" and without the white space at its
-- end, under its number of lines and its size, and leaves the store.
pub write_file-read_file :
    (fs : FileSystem) (laws : FileLaws fs) (filepath target c t : String) (dirs : Bool)
    (st st' : fs.Store) (r : ToolResult)
    → fs.resolve filepath st ≡ ok target
    → write_file fs filepath c false dirs st ≡ (returned r, st')
    → r.success ≡ true
    → fs.read_text target st' ≡ ok t
    → (max_bytes : ℤ) → too_large (utf8_size c) max_bytes ≡ false
    → read_file fs filepath (pos 1) none max_bytes st' ≡ (
      answer target (length (split_lines (newlines c))) (utf8_size c) 1 none (rstrip (newlines c)),
      st',
    )
write_file-read_file fs laws filepath target c t dirs st st' r resolved wrote good opened max_bytes
      small =
    let w = write_file-Written fs laws filepath c false dirs st wrote good in
    let same = ok_inj w.target target (sym w.resolved ∙ resolved) in
    let opened' = ap (λ x. fs.read_text x st') same ∙ opened in
    let found = laws.write-found overwrite w.target c w.by.mid st' w.by.wrote in
    let bytes = laws.write-size w.target c w.by.after w.by.mid st' w.by.wrote w.by.sized in
    let text = text_written fs laws w.target c t (laws.content w.target st) st' w.holds opened' in
    let readable : Readable fs filepath w.target (newlines c) (utf8_size c) st' = record {
      resolved = w.still;
      there = found.0;
      file = found.1;
      sized = w.by.sized ∙ ap ok bytes;
      opened = opened' ∙ ap ok text;
    } in
    read_file_whole fs filepath w.target (newlines c) (utf8_size c) st' readable max_bytes small
    ∙ ap
        (λ x. (
          answer x (length (split_lines (newlines c))) (utf8_size c) 1 none (rstrip (newlines c)),
          st',
        ))
        same
