-- ===== src/Snapshot/Tests.antt =====
-- Tests of the snapshot of chainmaker-go-master/module/snapshot on concrete transactions.
pub mod Dags
use chainmaker.Prelude.{
  ◌≡◌, refl, sym, ap, ◌∙◌, inl, inr, true, false, not, ◌++◌, some, [], ◌∷◌, arith,
}
use chainmaker.Prelude.Eq.{Bytes, bytes_instance, bytes_eq}
use chainmaker.Prelude.Map.{lookup, insert}
use chainmaker.Prelude.Result.{Result, ok}
use chainmaker.Snapshot.{
  TxSimContext, SnapshotImpl, construct_key, read_kvs, write_kvs, build_kv_maps, put_all,
  key_conflicted, apply_optimize, in_tables, get_key, get_pre_key,
}
use chainmaker.Snapshot.Applying.{collect_reads, prepare, any_conflicted, finish, apply_special}
use chainmaker.Snapshot.Serial.{value_after, IsSerial, overwritten, Run, start, normal}
use chainmaker.Snapshot.Serial.Order.{Run-IsSerial, finish_lem, construct_key_clash}

-- The store has 7 under each key. One contract is in use.
abbrev store : Bytes → Bytes → Result Bytes
store contract key = ok (7 ∷ [])

abbrev OfOne : Bytes → Bytes → Type 0
OfOne contract key = contract ≡ 1 ∷ []

OfOne-apart :
    (c k c' k' : Bytes)
    → OfOne c k
    → OfOne c' k'
    → construct_key c k ≡ construct_key c' k'
    → (c ≡ c') × (k ≡ k')
unfolding construct_key
OfOne-apart c k c' k' e e' joined =
    let left : 1 ∷ k ≡ c ++ k = ap (λ (x : Bytes). x ++ k) (sym e) in
    let right : c' ++ k' ≡ 1 ∷ k' = ap (λ (x : Bytes). x ++ k') e' in
    let both : 1 ∷ k ≡ 1 ∷ k' = left ∙ joined ∙ right in (e ∙ sym e', cc)

abbrev empty : SnapshotImpl
empty = record {
  sealed = false;
  block_version = 2030100;
  pre_snapshots = [];
  tx_rw_set_table = [];
  tx_table = [];
  special_tx_table = [];
  tx_result_map = [];
  tables = record { read_table = []; write_table = [] };
}

-- One transaction writes a key, and another, begun at the same time, reads another key.
abbrev writer : TxSimContext
writer = record {
  tx_id = 10 ∷ [];
  exec_seq = 0;
  rw_set = λ run. record {
    tx_reads = [];
    tx_writes = record { contract_name = 1 ∷ []; key = 2 ∷ []; value = 5 ∷ [] } ∷ [];
  };
  tx_result = [];
}

abbrev reader : TxSimContext
reader = record {
  tx_id = 11 ∷ [];
  exec_seq = 0;
  rw_set = λ run. record {
    tx_reads = record { contract_name = 1 ∷ []; key = 3 ∷ []; value = 7 ∷ [] } ∷ [];
    tx_writes = record { contract_name = 1 ∷ []; key = 3 ∷ []; value = 8 ∷ [] } ∷ [];
  };
  tx_result = [];
}

abbrev written : SnapshotImpl
written = (finish writer true (build_kv_maps (writer.rw_set true)) empty).snapshot

abbrev both : SnapshotImpl
both = (finish reader true (build_kv_maps (reader.rw_set true)) written).snapshot

writer_passes : prepare writer true empty ≡ some (build_kv_maps (writer.rw_set true))
unfolding prepare collect_reads build_kv_maps write_kvs read_kvs construct_key insert
writer_passes = refl

reader_passes : prepare reader true empty ≡ some (build_kv_maps (reader.rw_set true))
unfolding prepare collect_reads build_kv_maps write_kvs read_kvs construct_key insert key_conflicted
    lookup
reader_passes = refl

reader_got : get_key store (1 ∷ []) (3 ∷ []) empty ≡ ok (7 ∷ [])
unfolding get_key get_pre_key in_tables lookup
reader_got = refl

writer-Run : Run store OfOne (true ∷ []) (written ∷ empty ∷ [])
unfolding finish
writer-Run =
    normal writer true empty (build_kv_maps (writer.rw_set true)) (start empty refl refl refl)
      (tt, (refl, tt)) (λ asked. tt) writer_passes

both-Run : Run store OfOne (true ∷ true ∷ []) (both ∷ written ∷ empty ∷ [])
unfolding finish any_conflicted key_conflicted apply_optimize build_kv_maps write_kvs read_kvs
    construct_key insert lookup put_all bytes_eq
both-Run =
    normal reader true empty (build_kv_maps (reader.rw_set true)) writer-Run
      ((refl, tt), (refl, tt)) (λ asked. (inr (inl (omega arith, reader_got)), tt)) reader_passes

-- A failed transaction with a read that is wrong: the store has 7 under the key.
abbrev failing : TxSimContext
failing = record {
  tx_id = 13 ∷ [];
  exec_seq = 2;
  rw_set = λ run. record {
    tx_reads = record { contract_name = 1 ∷ []; key = 4 ∷ []; value = 9 ∷ [] } ∷ [];
    tx_writes = [];
  };
  tx_result = [];
}

failing_passes : prepare failing false empty ≡ some (build_kv_maps (failing.rw_set false))
unfolding prepare collect_reads build_kv_maps write_kvs read_kvs construct_key insert key_conflicted
    lookup
failing_passes = refl

abbrev three : SnapshotImpl
three = (finish failing false (build_kv_maps (failing.rw_set false)) both).snapshot

three-Run : Run store OfOne (true ∷ true ∷ false ∷ []) (three ∷ both ∷ written ∷ empty ∷ [])
unfolding finish any_conflicted key_conflicted apply_optimize build_kv_maps write_kvs read_kvs
    construct_key insert lookup put_all bytes_eq
three-Run =
    normal failing false empty (build_kv_maps (failing.rw_set false)) both-Run ((refl, tt), tt)
      (λ asked. ground (arith, asked)) failing_passes

Run-IsSerial_example :
    IsSerial store OfOne three.pre_snapshots [] (true ∷ true ∷ false ∷ []) three.tx_rw_set_table
    × ((c k : Bytes)
        → OfOne c k
        → get_key store c k three
          ≡ value_after store OfOne three.pre_snapshots three.tx_rw_set_table c k)
Run-IsSerial_example = Run-IsSerial store OfOne OfOne-apart three-Run

-- Both are applied.
both_applied : both.tx_table ≡ (10 ∷ []) ∷ (11 ∷ []) ∷ []
unfolding finish any_conflicted key_conflicted apply_optimize build_kv_maps write_kvs read_kvs
    construct_key insert lookup put_all bytes_eq
both_applied = refl

finish_lem_example :
    (finish reader true (build_kv_maps (reader.rw_set true)) written).applied
    ≡ not (overwritten 0 (reader.rw_set true).tx_reads written.tx_rw_set_table)
unfolding finish apply_optimize
finish_lem_example =
    finish_lem store OfOne OfOne-apart reader true empty (build_kv_maps (reader.rw_set true))
      writer-Run refl ((refl, tt), (refl, tt)) reader_passes

abbrev clash : TxSimContext
clash = record {
  tx_id = 12 ∷ [];
  exec_seq = 0;
  rw_set = λ run. record {
    tx_reads = [];
    tx_writes = record { contract_name = 1 ∷ []; key = 2 ∷ 3 ∷ []; value = 5 ∷ [] } ∷ [];
  };
  tx_result = [];
}

construct_key_clash_example :
    get_key store (1 ∷ 2 ∷ []) (3 ∷ []) (apply_special clash true empty).snapshot ≡ ok (5 ∷ [])
construct_key_clash_example =
    construct_key_clash store clash true empty (1 ∷ []) (2 ∷ []) (3 ∷ []) (5 ∷ []) refl
