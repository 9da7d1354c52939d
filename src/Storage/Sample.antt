-- ===== src/Storage/Sample.antt =====
-- A small file of a swamp and the writer that made it, for the tests.
use hydraide.Base.{◌≡◌, refl, false, List, [], ◌∷◌, ◌++◌, All, arith}
use hydraide.Base.Bytes.{Bytes}
use hydraide.Compressor.Stored.{stored, stored-Documented}
use hydraide.Storage.Entry.{Entry, op_insert, op_update, op_delete}
use hydraide.Storage.Block.{new_write_buffer}
use hydraide.Storage.Block.Image.{Storable}
use hydraide.Storage.Writer.{FileWriter, create_new_file, write_entries, close}
use hydraide.Storage.Writer.Log.{Stores}
use hydraide.Storage.Writer.Methods.{write_entries-Works}
use hydraide.Storage.Writer.Files.{FileHolds, close-FileHolds}
use hydraide.Storage.Writer.Create.{create_new_file-Stores}

abbrev pub swamp : Bytes
swamp = b'a' ∷ b'/' ∷ b'b' ∷ []

abbrev pub path : Bytes
path = b'x' ∷ []

abbrev pub put_k : Entry
put_k = record { operation = op_insert; key = b'k' ∷ []; payload = 1 ∷ 2 ∷ [] }

abbrev pub put_j : Entry
put_j = record { operation = op_update; key = b'j' ∷ []; payload = 3 ∷ [] }

abbrev pub delete_k : Entry
delete_k = record { operation = op_delete; key = b'k' ∷ []; payload = [] }

abbrev pub first : List Entry
first = put_k ∷ put_j ∷ []

abbrev pub second : List Entry
second = delete_k ∷ []

abbrev pub log : List Entry
log = first ++ second

pub log-Storable : All Storable log
log-Storable = omega arith

abbrev pub new_writer : FileWriter
new_writer = create_new_file 1700 (new_write_buffer 16) swamp

pub new_writer-Stores : Stores stored swamp new_writer []
new_writer-Stores =
    create_new_file-Stores stored 1700 16 swamp (omega arith) (omega arith) (omega arith)

pub new_writer_open : new_writer.closed ≡ false
unfolding create_new_file
new_writer_open = refl

abbrev pub writer_with : List Entry → FileWriter
writer_with es = (write_entries stored new_writer es).0

pub writer_with-Stores :
    (es : List Entry)
    → All Storable es
    → Stores stored swamp (writer_with es) es × ((writer_with es).closed ≡ false)
writer_with-Stores es st =
    let w =
      write_entries-Works stored swamp stored-Documented new_writer [] new_writer-Stores
        new_writer_open es st in
    (w.stores, w.closed)

-- The file that a session leaves.
abbrev pub file_with : List Entry → Bytes
file_with es = (close stored (writer_with es)).0.file.content

pub file_with-FileHolds :
    (es : List Entry) → All Storable es → FileHolds stored swamp (file_with es) es
file_with-FileHolds es st =
    let (stores, is_open) = writer_with-Stores es st in
    (close-FileHolds stored swamp stored-Documented (writer_with es) es stores is_open).2
