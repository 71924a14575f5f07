-- ===== src/Tests/Journals.antt =====
-- The journal at concrete files and calls.
use durable_acp.Prelude.{
  ◌+◌, ◌<◌, ◌^◌, ◌≡◌, refl, false, none, some, List, [], ◌∷◌, arith, ok, err, ok_injective, map_ok,
  lookup, insert, erase, trim_space, is_empty, pos, subst,
}
use durable_acp.Journal.Record.{Bytes, Record}
use durable_acp.Journal.File.{
  RepairFaults, ReadError, Query, repair_torn_tail, find_truncation, last_index_byte, split_lines,
  scan_lines, scan_line, finish_scan, in_order, keep, in_range, check_record, read_journal,
}
use durable_acp.Journal.File.Repair.{Repaired, complete, repair_torn_tail-Repaired}
use durable_acp.Journal.File.Reader.{
  decode_all, select, calm_read, read_journal_lem, read_journal_broken,
}
use durable_acp.Journal.File.Ring.{last_n}
use durable_acp.Journal.File.Lines.{read_journal-complete}
use durable_acp.Journal.File.Contents.{end_of}
use durable_acp.Journal.Paths.{path, safe_session_id, IsSafe}
use durable_acp.Journal.Envelope.{
  Config, reduce, prepare, next_sequence, replay, last_sequence, default_data, seal_reduced,
  clone_raw_message,
}
use durable_acp.Journal.Envelope.Laws.{IsPrepared, reduce-IsPrepared}
use durable_acp.Journal.Store.{
  Store, Faults, append, writer_for, open_writer, append_with, persist, read, tail,
}
use durable_acp.Journal.Store.Opening.{Reads}
use durable_acp.Journal.Store.Soundness.{IsSound}
use durable_acp.Journal.Store.Appending.{HasRoom, Outcome, append-Outcome}
use durable_acp.Journal.Store.Histories.{appends, here, next, new_store, Reach-IsSound}
use durable_acp.Journal.Store.Reading.{Readable, read-append, tail_lem}
use durable_acp.Tests.Codec.{sample, demo, demo-IsCodec, is_none, bytes_eq}

abbrev calm_repair : RepairFaults
calm_repair = record {
  stat_fails = false;
  read_at_fails = λ o. false;
  truncate_fails = false;
  sync_fails = false;
}

abbrev calm : Faults
calm = record {
  open_fails = false;
  chmod_fails = false;
  repair = calm_repair;
  read = calm_read;
  write_stops = none;
  sync_fails = false;
  close_fails = false;
}

abbrev torn_write : Faults
torn_write = record calm { write_stops = some 1 }

abbrev config : Config
config = record { schema_id = "demo.v1"; reducer = none }

abbrev demo_query : Query
demo_query = record { schema = "demo.v1"; session_id = "s"; after = 0; through = 0; tail = 0 }

-- Two lines, the records 1 and 2, and the start of a third.
abbrev torn_file : Bytes
torn_file = 12 ∷ 10 ∷ 13 ∷ 10 ∷ 14 ∷ []

repair_torn_tail-Repaired_example :
    Repaired calm_repair torn_file (repair_torn_tail calm_repair torn_file)
repair_torn_tail-Repaired_example = repair_torn_tail-Repaired calm_repair torn_file

read_journal_lem_example :
    read_journal demo calm_read demo_query (some torn_file)
    ≡ map_ok (select demo_query) (decode_all demo "demo.v1" "s" 0 false 0 (split_lines torn_file).0)
read_journal_lem_example = read_journal_lem demo demo_query torn_file

read_journal-complete_example :
    read_journal demo calm_read demo_query (some (complete torn_file))
    ≡ read_journal demo calm_read demo_query (some torn_file)
read_journal-complete_example = read_journal-complete demo demo_query torn_file

read_journal_broken_example :
    (e : ReadError) × (read_journal demo
        (record calm_read { broken_after = some 3 })
        demo_query
        (some torn_file)
      ≡ err e)
read_journal_broken_example =
    read_journal_broken demo (record calm_read { broken_after = some 3 }) demo_query torn_file 3
      refl

abbrev empty : Store
empty = new_store []

s_IsSafe : IsSafe (trim_space "s")
unfolding safe_session_id trim_space
s_IsSafe = refl

room : HasRoom demo config (trim_space "s") empty
unfolding decode_all split_lines lookup trim_space new_store end_of
room rs h =
    let e : [] ≡ rs = ok_injective h in
    subst (λ (l : List Record). end_of 0 l + 1 < 2 ^ 64) e (omega arith)

empty-IsSound : IsSound demo config empty
empty-IsSound = Reach-IsSound demo config demo-IsCodec [] empty here

append-Outcome_example :
    Outcome demo config
      (trim_space "s")
      empty
      (append demo config "e" 7 (sample 0) torn_write empty)
append-Outcome_example =
    append-Outcome demo config demo-IsCodec "e" 7 (sample 0) torn_write empty empty-IsSound s_IsSafe
      room

-- The first append of a session is numbered 1.
first_append : (append demo config "e" 7 (sample 0) calm empty).0 ≡ ok (sample 1)
unfolding append prepare writer_for open_writer append_with reduce persist demo path safe_session_id
    trim_space lookup insert erase repair_torn_tail find_truncation last_index_byte read_journal
    split_lines scan_lines scan_line finish_scan in_order keep in_range check_record replay
    last_sequence next_sequence default_data new_store is_none bytes_eq
first_append = refl

read-append_example :
    Readable demo config "s" empty (append demo config "e" 7 (sample 0) calm empty).1 (sample 1)
read-append_example =
    read-append demo config demo-IsCodec "e" 7 (sample 0) (sample 1) calm empty empty-IsSound
      s_IsSafe room first_append

Reach-IsSound_example : IsSound demo config (append demo config "e" 7 (sample 0) torn_write empty).1
Reach-IsSound_example =
    Reach-IsSound demo config demo-IsCodec []
      (append demo config "e" 7 (sample 0) torn_write empty).1
      (next here (appends "e" 7 (sample 0) torn_write s_IsSafe room))

tail_lem_example :
    (all : List Record) × (read demo config "s" 0 0 false calm_read
        (new_store (("s.jsonl", torn_file) ∷ []))
      ≡ ok all)
    × (tail demo config "s" (pos 1) false calm_read (new_store (("s.jsonl", torn_file) ∷ []))
        ≡ ok (last_n 1 all))
tail_lem_example =
    tail_lem demo config "s" 0 (new_store (("s.jsonl", torn_file) ∷ [])) torn_file
      (sample 1 ∷ sample 2 ∷ []) named file decoded
  where
    named : is_empty (trim_space "s") ≡ false
    named = unfold trim_space in refl

    file :
        lookup (path (trim_space "s")) (new_store (("s.jsonl", torn_file) ∷ [])).files
        ≡ some torn_file
    file = unfold trim_space path safe_session_id lookup new_store in refl

    decoded : Reads demo config (trim_space "s") torn_file (sample 1 ∷ sample 2 ∷ [])
    decoded = unfold trim_space decode_all split_lines demo check_record in refl

rewriting : Config
rewriting = record config {
  reducer = some (λ state r. some (state, record r { schema = "other"; event_id = "x" }));
}

reduce-IsPrepared_example :
    IsPrepared rewriting "s" (sample 4)
    × ((sample 4).sequence ≡ next_sequence (record { seq = 3; state = none }))
reduce-IsPrepared_example =
    reduce-IsPrepared rewriting "s" (record { seq = 3; state = none }) (sample 0) (sample 4) none
      prepared reduced
  where
    prepared : IsPrepared rewriting "s" (sample 0)
    prepared =
        unfold rewriting in
        record { schema = refl; version = refl; session = refl; named = refl; event_named = refl }

    reduced : reduce rewriting (record { seq = 3; state = none }) (sample 0) ≡ ok (none, sample 4)
    reduced =
        unfold reduce rewriting seal_reduced next_sequence trim_space clone_raw_message
          default_data in
        refl
