-- ===== src/Storage/Entry.antt =====
-- Entries and their kinds: askar-storage/src/entry.rs.
use iviadc_aries_askar.Base.{ℕ, String, List, ◌==◌, if◌then◌else◌, Bytes, Result, ok, err}
use iviadc_aries_askar.Storage.Error.{ErrorKind, input}
use iviadc_aries_askar.Storage.Protect.ProfileKey.{EntryTag}

pub data EntryKind : Type 0 where
  kms item : EntryKind

unfoldable pub kind_number : EntryKind → ℕ
kind_number kms = 1
kind_number item = 2

-- `TryFrom<usize> for EntryKind`: `err_msg!` without a kind makes an input error.
unfoldable pub kind_from : ℕ → Result EntryKind ErrorKind
kind_from value = if value == 1 then ok kms else if value == 2 then ok item else err input

pub record Entry : Type 0 where
  pub entry_kind : EntryKind
  pub entry_category : String
  pub entry_name : String
  pub entry_value : Bytes
  pub entry_tags : List EntryTag
