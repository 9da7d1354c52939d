-- ===== src/Storage/Compactor/FromIndex.antt =====
-- `CompactFromIndex` of chronicler/v2/compactor.go, which takes the caller's index.
use hydraide.Base.{ℕ, Option, some, ◌==◌, if◌then◌else◌}
use hydraide.Base.Bytes.{Bytes}
use hydraide.Storage.Errors.{Error}
use hydraide.Storage.Entry.{Entry}
use hydraide.Storage.Header.{default_max_block_size}
use hydraide.Storage.Reader.{Index}
use hydraide.Storage.Compactor.{Disk, CompactionResult, Answer}

abbrev block_size_of : ℕ → ℕ
block_size_of max_block_size =
    if max_block_size == 0 then default_max_block_size else max_block_size

abbrev answered : Answer → Option CompactionResult × Option Error × Disk
answered a = (some a.0, a.1, a.2)
