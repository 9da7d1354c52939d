-- ===== src/Storage/OsFile.antt =====
-- An open file of package os: its bytes, and the position of the next read or write. Every
-- operation of the operating system succeeds here.
use hydraide.Base.{
  ℕ, ◌+◌, ◌≡◌, refl, ◌∙◌, append_assoc, [], ◌++◌, length, take, drop, arith, length-append,
  append-nil, drop-append, take_all, drop_all,
}
use hydraide.Base.Bytes.{Bytes}

pub record OsFile : Type 0 where
  pub content : Bytes
  pub pos : ℕ

-- `os.Create`
unfoldable pub create : OsFile
create = record { content = []; pos = 0 }

-- `Write`, at a position that is not past the end
unfoldable pub write : OsFile → Bytes → OsFile
write f bs = record {
  content = take f.pos f.content ++ (bs ++ drop (f.pos + length bs) f.content);
  pos = f.pos + length bs;
}

-- `Seek(n, io.SeekStart)`
unfoldable pub seek_start : OsFile → ℕ → OsFile
seek_start f n = record f { pos = n }

-- `Seek(0, io.SeekEnd)`
unfoldable pub seek_end : OsFile → OsFile
seek_end f = record f { pos = length f.content }

-- At the end, `Write` appends.
pub write_at_end :
    (f : OsFile) (bs : Bytes)
    → f.pos ≡ length f.content
    → write f bs ≡ record { content = f.content ++ bs; pos = length (f.content ++ bs) }
unfolding write
write_at_end f bs e =
    let before : take f.pos f.content ≡ f.content = take_all f.pos f.content (omega arith) in
    let after : bs ++ drop (f.pos + length bs) f.content ≡ bs =
      rw (drop_all (f.pos + length bs) f.content (omega arith)) (append-nil bs) in
    let end : f.pos + length bs ≡ length (f.content ++ bs) =
      omega (arith, length-append f.content bs) in
    λ i. record { content = before i ++ after i; pos = end i }

-- At the start, `Write` puts its bytes over as many old ones.
pub write_at_start :
    (f : OsFile) (old new tail : Bytes)
    → f.content ≡ old ++ tail
    → length old ≡ length new
    → write (seek_start f 0) new ≡ record { content = new ++ tail; pos = length new }
unfolding write seek_start
write_at_start f old new tail e len =
    let start : 0 + length new ≡ length new = omega arith in
    let after : drop (0 + length new) f.content ≡ tail =
      rw (start, e, ← len) (drop-append old tail) in
    λ i. record { content = new ++ after i; pos = start i }

write_twice :
    (f : OsFile) (bs cs : Bytes)
    → f.pos ≡ length f.content
    → write (write f bs) cs
      ≡ record { content = (f.content ++ bs) ++ cs; pos = length ((f.content ++ bs) ++ cs) }
write_twice f bs cs e =
    rw (write_at_end f bs e)
      (write_at_end (record { content = f.content ++ bs; pos = length (f.content ++ bs) }) cs refl)

-- Two writes at the end, and a write at the start over a head of the same length: the file has the
-- new head, its old tail, and what was appended; the position is put back to the end.
pub append_and_patch :
    (f : OsFile) (head new_head tail bs cs : Bytes)
    → f.content ≡ head ++ tail
    → f.pos ≡ length f.content
    → length head ≡ length new_head
    → seek_start (write (seek_start (write (write f bs) cs) 0) new_head) (write (write f bs) cs).pos
      ≡ record {
        content = new_head ++ (tail ++ (bs ++ cs));
        pos = length (new_head ++ (tail ++ (bs ++ cs)));
      }
unfolding seek_start
append_and_patch f head new_head tail bs cs e at_end len =
    let both = write_twice f bs cs at_end in
    let split : (f.content ++ bs) ++ cs ≡ head ++ (tail ++ (bs ++ cs)) =
      rw e (append_assoc (head ++ tail) bs cs ∙ append_assoc head tail (bs ++ cs)) in
    let over =
      write_at_start
        (record { content = (f.content ++ bs) ++ cs; pos = length ((f.content ++ bs) ++ cs) }) head
        new_head (tail ++ (bs ++ cs)) split len in
    rw both
      (rw over (λ i. record { content = new_head ++ (tail ++ (bs ++ cs)); pos = same_length i }))
  where
    same_length : length ((f.content ++ bs) ++ cs) ≡ length (new_head ++ (tail ++ (bs ++ cs)))
    same_length = rw e (simp length-append (omega (arith, len)))
