-- ===== src/Daemon/Examples.antt =====
-- Runs of `apply_record` on a history of one entry.
use panora.Prelude.{
  ℕ, ◌≡◌, refl, ◌⊎◌, true, false, none, some, [], ◌∷◌, pos, nat_eq, list_eq, arith, ok,
}
use panora.Model.{clipboard, text}
use panora.History.Defs.{
  Row, Database, row_by_id, row_by_key, has_id, update_tracked, update_rows, stamp_seq,
}
use panora.History.Rows.{has_key}
use panora.History.Sequence.{has_seq}
use panora.History.Entries.{find_entry, row_to_entry, apply_remote_state, remote_row}
use panora.History.Feed.{observe_lamport}
use panora.History.Validity.{IsValid, fts_count, live_count}
use panora.Sync.{SyncRecord, payload_hash, lww_wins}
use panora.Daemon.{Host, World}
use panora.Daemon.Peers.{
  yes, ignored, rejected, apply_record, well_formed, lamport_in_range, clamp_times, payloads_match,
  observe, is_beaten, find_local, apply_live, take_over,
}
use panora.Daemon.Winner.{Settles}
use panora.Daemon.LastWriter.{apply_record-Settles, apply_record_again, apply_record_wins}
use panora.Sync.{SyncScope, includes}
use panora.History.Feed.{changes_since, is_shared}
use panora.History.Retention.{sort_by, insert_by}
use panora.Daemon.Changes.{
  limit_of, max_fds_per_frame, sync_max_entry_bytes, record_of, is_unfit, is_full, push,
  payloads_of, weigh, visit, scan, feed_loop, sync_changes,
}
use panora.Daemon.Pages.{payloads_in, bytes_in, sync_changes-bound}
use panora.Daemon.FeedEnds.{sync_changes_ends}
use panora.Prelude.{◌≤◌, ◌≢◌, length}
use panora.Model.{total_size}

abbrev row : Row
row = record {
  id = 1;
  content_hash = 2 ∷ [];
  preview = 5 ∷ 52 ∷ [];
  kind = text;
  primary_mime = [];
  size_bytes = 1;
  source_app = none;
  selection = clipboard;
  created_at = 100;
  last_seen_at = 100;
  pinned = false;
  sensitive = false;
  device_id = 1 ∷ [];
  lamport = 3;
  deleted = false;
  deleted_at = 0;
  change_seq = 1;
}

abbrev shelf : Database
shelf = record {
  entries = row ∷ [];
  entry_blobs = [];
  entries_fts = record { rowid = 1; preview = []; content = none } ∷ [];
  change_seq = 1;
  lamport_clock = some 3;
  key_fingerprint = none;
  rotation_state = none;
  lock_verifier = none;
  lock_kek_salt = none;
}

shelf-IsValid : IsValid shelf
unfolding has_id has_key has_seq fts_count live_count row_by_id
shelf-IsValid = record {
  sound = record {
    unique = (refl, refl, tt);
    seq_below = (omega arith, tt);
    seq_unique = (refl, tt);
    owned = tt;
  };
  indexed = record { at = λ i. ground arith };
}

abbrev host : Host
host = record {
  cipher = record {
    fingerprint = [];
    seal_text_with_aad = λ aad t. some t;
    open_text_with_aad = λ aad t. some t;
    open_text = λ t. some t;
  };
  aead = record { encrypt = λ n a m. some m; decrypt = λ n a c. some c };
  nonce = λ content. [];
  blake3 = λ bytes. bytes;
  device_id = 9 ∷ [];
  config = record {
    max_entries = 10;
    max_age_days = 0;
    max_total_bytes = 0;
    max_mime_bytes = 100;
    record_primary = false;
    index_full_text = false;
    duplicate_policy = [];
    sensitive_policy = [];
    sensitive_ttl_minutes = 0;
    sync_enabled = true;
    tombstone_days = 30;
  };
  admits = λ captured. true;
  classify = λ captured. text;
  text_of = λ captured. [];
  make_preview = λ captured. [];
  detect = λ t. none;
  index_text = λ t kind. none;
  render_thumbnail = λ content. none;
}

-- The state of the entry on another device, pinned there.
abbrev pinned_there : SyncRecord
pinned_there = record {
  content_hash = 2 ∷ [];
  selection = clipboard;
  source_app = none;
  created_at = pos 90;
  last_seen_at = pos 2000;
  pinned = true;
  deleted = false;
  device_id = 2 ∷ [];
  lamport = pos 4;
  payloads = record { mime = []; content = 2 ∷ [] } ∷ [];
}

abbrev before : World
before = record { db = shelf; files = [] }

abbrev after : World
after = record {
  db = record shelf {
    entries =
        record row {
          pinned = true;
          created_at = 90;
          last_seen_at = 400;
          lamport = 4;
          device_id = 2 ∷ [];
          change_seq = 2;
        }
        ∷ [];
    change_seq = 2;
    lamport_clock = some 4;
  };
  files = [];
}

applied : apply_record host 100 pinned_there before ≡ ok (yes, after)
unfolding apply_record well_formed lamport_in_range clamp_times payloads_match payload_hash observe
    observe_lamport find_local find_entry row_to_entry row_by_key is_beaten lww_wins apply_live
    take_over apply_remote_state update_tracked update_rows stamp_seq remote_row has_id
applied = refl

apply_record-Settles_example :
    ((yes ≡ rejected) × (before ≡ after))
    ⊎ ((n : ℕ) × (pos 4 ≡ pos n) × Settles pinned_there n (observe n before) yes after)
apply_record-Settles_example =
    apply_record-Settles host pinned_there 100 before after yes shelf-IsValid applied

apply_record_again_example :
    (n : ℕ) × (pos 4 ≡ pos n)
    × (apply_record host 500 pinned_there after ≡ ok (ignored, observe n after))
apply_record_again_example =
    apply_record_again host pinned_there 100 500 before after shelf-IsValid applied

apply_record_wins_example : (n : ℕ) × (pos 4 ≡ pos n) × (lww_wins (n, 2 ∷ []) (3, 1 ∷ []) ≡ true)
unfolding row_by_key
apply_record_wins_example = apply_record_wins host pinned_there 100 before after row refl applied

-- The entry deleted: its record goes out without payloads.
abbrev deleted_row : Row
deleted_row = record row { deleted = true; deleted_at = 50 }

abbrev gone : World
gone = record { db = record shelf { entries = deleted_row ∷ [] }; files = [] }

abbrev everything : SyncScope
everything = record { pinned_only = false; text_only = false }

replied :
    sync_changes host 2 0 0 everything gone ≡ ok (some (record_of deleted_row [] ∷ [], 1, false))
unfolding sync_changes feed_loop scan visit payloads_of weigh is_unfit is_full push record_of
    changes_since is_shared sort_by insert_by includes total_size
replied = refl

sync_changes-bound_example :
    (length (record_of deleted_row [] ∷ []) ≤ limit_of 0)
    × (payloads_in (record_of deleted_row [] ∷ []) ≤ max_fds_per_frame)
    × (bytes_in (record_of deleted_row [] ∷ []) ≤ sync_max_entry_bytes)
sync_changes-bound_example =
    sync_changes-bound host 2 0 0 1 everything gone (record_of deleted_row [] ∷ []) false replied

sync_changes_ends_example : sync_changes host 2 0 0 everything gone ≢ ok none
sync_changes_ends_example = sync_changes_ends host 2 0 0 everything gone (omega arith)
