-- ===== src/Storage/TornTests.antt =====
-- The sample file with a write that was cut off.
use hydraide.Base.{◌≡◌, ◌++◌, some, List, [], ◌∷◌, arith}
use hydraide.Base.Bytes.{Bytes}
use hydraide.Compressor.Stored.{stored, stored-Documented}
use hydraide.Storage.Errors.{unexpected_eof}
use hydraide.Storage.Entry.{Entry}
use hydraide.Storage.BlockHeader
use hydraide.Storage.Block.Image.{IsBlock, IsBlock-of_Storable, header, length-serialize_entries}
use hydraide.Storage.Reader.{read_all_entries, load_index}
use hydraide.Storage.Reader.Open.{reader}
use hydraide.Storage.Reader.Torn.{torn_reader, torn_header_lem, torn_load_index_lem}
use hydraide.Storage.Sessions.{collect}
use hydraide.Storage.Sample.{swamp, put_k, log, log-Storable, file_with, file_with-FileHolds}

abbrev block : List Entry
block = put_k ∷ []

block-IsBlock : IsBlock stored block
block-IsBlock =
    IsBlock-of_Storable stored stored-Documented block (λ e. cc) (log-Storable.0, tt) (omega arith)
      (omega arith)

abbrev cut : Bytes
cut = 1 ∷ []

torn_header_lem_example :
    read_all_entries stored collect
      (torn_reader stored swamp (file_with log) log (file_with-FileHolds log log-Storable) cut)
      []
    ≡ read_all_entries stored collect
        (reader stored swamp (file_with log) log (file_with-FileHolds log log-Storable))
        []
torn_header_lem_example =
    torn_header_lem stored stored-Documented swamp (file_with log) log
      (file_with-FileHolds log log-Storable) cut collect [] (omega arith)

torn_load_index_lem_example :
    (let (index, _, e) = load_index stored (
        torn_reader stored swamp
          (file_with log)
          log
          (file_with-FileHolds log log-Storable)
          (BlockHeader.serialize (header stored block) ++ cut)) in
      (index ≡ []) × (e ≡ some unexpected_eof))
torn_load_index_lem_example =
    torn_load_index_lem stored stored-Documented swamp (file_with log) log
      (file_with-FileHolds log log-Storable) block cut block-IsBlock (omega arith)
      (omega (arith, length-serialize_entries block))
