-- ===== src/Listener/Blocks/Collected.antt =====
-- The results of a meta transaction in the logs of its native transaction.
use go_sequence.Base.{
  ◌≡◌, refl, sym, ◌∙◌, List, [], ◌∷◌, ◌++◌, append_assoc, append-nil, Option, none, some, true,
  false, if◌then◌else◌, Bool-cases, inl, inr,
}
use go_sequence.Base.Bytes.{bytes_equal, bytes_equal→eq, bytes_equal_refl}
use go_sequence.Ethkit.{Ethkit}
use go_sequence.Digest.{Hash}
use go_sequence.Receipt.{Log, Events}
use go_sequence.Listener.{MetaTxnResult}
use go_sequence.Listener.Blocks.{ReceiptMap, result_of, add_result, add_log, collect}

-- The results that the map has for an id.
abbrev pub results_in : Hash → ReceiptMap → List MetaTxnResult
results_in id [] = []
results_in id ((h, r) ∷ m) = if bytes_equal h id then r.results else results_in id m

-- The results for an id, read off the logs one by one.
abbrev pub own_result : Hash → Option (Hash × MetaTxnResult) → List MetaTxnResult
own_result id none = []
own_result id (some (h, r)) = if bytes_equal h id then r ∷ [] else []

abbrev pub results_of : Events → Hash → List Log → List MetaTxnResult
results_of ev id [] = []
results_of ev id (log ∷ logs) = own_result id (result_of ev log) ++ results_of ev id logs

-- Of two different ids, one at most is a third one.
apart_from :
    (id h' h : Hash)
    → bytes_equal h' h ≡ false
    → bytes_equal h' id ≡ true
    → bytes_equal h id ≡ false
apart_from id h' h n y = elim (Bool-cases (bytes_equal h id)) [
  | inl both ↦
      let same : h' ≡ h = bytes_equal→eq h' id y ∙ sym (bytes_equal→eq h id both) in
      let impossible : true ≡ false = sym (bytes_equal_refl h) ∙ (rw same at n) in cc
  | inr n' ↦ n'
]

module _ (ev : Events) (k : Ethkit) (id : Hash) where
  results_in-add_result :
      (h : Hash) (r : MetaTxnResult) (m : ReceiptMap)
      → results_in id (add_result ev k h r m) ≡ results_in id m ++ own_result id (some (h, r))
  unfolding add_result
  results_in-add_result h r [] = refl
  results_in-add_result h r ((h', r') ∷ m) = elim (Bool-cases (bytes_equal h' h)) [
    | inl y ↦
        let same : h' ≡ h = bytes_equal→eq h' h y in
        elim (Bool-cases (bytes_equal h id)) [
          | inl y' ↦
              let y'' : bytes_equal h' id ≡ true = rw (← same) at y' in
              rw (y, results_in, y'', y') refl
          | inr n' ↦
              let n'' : bytes_equal h' id ≡ false = rw (← same) at n' in
              rw (y, results_in, n'', n') (sym (append-nil _))
        ]
    | inr n ↦ elim (Bool-cases (bytes_equal h' id)) [
      | inl y' ↦
          let apart : bytes_equal h id ≡ false = apart_from id h' h n y' in
          rw (n, results_in, y', apart) (sym (append-nil _))
      | inr n' ↦ rw (n, results_in, n') (results_in-add_result h r m)
    ]
  ]

  results_in-add_log :
      (o : Option (Hash × MetaTxnResult)) (m : ReceiptMap)
      → results_in id (add_log ev k o m) ≡ results_in id m ++ own_result id o
  unfolding add_log
  results_in-add_log none m = sym (append-nil _)
  results_in-add_log (some (h, r)) m = results_in-add_result h r m

  collect-results_in :
      (m : ReceiptMap) (logs : List Log)
      → results_in id (collect ev k m logs) ≡ results_in id m ++ results_of ev id logs
  unfolding collect
  collect-results_in m [] = sym (append-nil _)
  collect-results_in m (log ∷ logs) =
      collect-results_in (add_log ev k (result_of ev log) m) logs
      ∙ rw (results_in-add_log (result_of ev log) m) (
          append_assoc (results_in id m) (own_result id (result_of ev log)) (results_of ev id logs))

-- The results that `handleBlock` collects for a meta transaction are those in the logs of the native
-- transaction that are of it, each once and in the order of the logs.
pub collect-results_of :
    (ev : Events) (k : Ethkit) (id : Hash) (logs : List Log)
    → results_in id (collect ev k [] logs) ≡ results_of ev id logs
collect-results_of ev k id logs = collect-results_in ev k id [] logs
