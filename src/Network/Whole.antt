-- ===== src/Network/Whole.antt =====
-- runtime/ext/standard/network.c: `php_getmxrr` on the bytes of an answer gives its hosts.
use roadsend_php.Base.{
  ℕ, ◌+◌, ◌*◌, ◌≤◌, ◌≡◌, refl, sym, List, ◌∷◌, ◌++◌, [], Option, length, drop, arith,
}
use roadsend_php.Network.{Lists, ok, php_getmxrr}
use roadsend_php.Network.Written.{Holds, HoldBoth, sprintf-empty, empty-Holds}
use roadsend_php.Network.Packet.{
  Record, Header, packet, records_bytes, hosts_of, weights_of, questions_bytes, AreRecords,
  AreQuestions,
}
use roadsend_php.Network.Records.{answers-bytes, questions-bytes, drop-further, get16-drop}

module _ (skip : List ℕ → ℕ → Option ℕ) (expand : List ℕ → ℕ → Option (ℕ × List ℕ)) where
  -- Of an answer with questions and records whose counts the header tells, and for whose names the
  -- resolver's functions tell, where they stand in this answer, the number of their bytes and the
  -- texts of the hosts, and for lists whose room from their second byte on is at least the length of
  -- the texts: php_getmxrr returns 0, and the lists hold the texts of the hosts and of the weights of
  -- the records of type MX, in their order, with a NUL behind them. The first text starts in the byte
  -- before the list, which is overwritten.
  pub php_getmxrr_lem :
      (header : Header) (asked : List (List ℕ × List ℕ)) (records : List Record) (behind : List ℕ)
      (before c : ℕ) (mx_rest : List ℕ) (weight_before d : ℕ) (weight_rest : List ℕ)
      → length asked ≡ header.qd_hi * 256 + header.qd_lo
      → length records ≡ header.an_hi * 256 + header.an_lo
      → length header.ident ≡ 4
      → length header.more ≡ 4
      → AreQuestions skip expand (packet header asked records behind) asked
      → AreRecords skip expand (packet header asked records behind) records
      → length (hosts_of records) ≤ length mx_rest
      → length (weights_of records) ≤ length weight_rest
      → (l : Lists) × (php_getmxrr skip expand
            (packet header asked records behind)
            (before ∷ c ∷ mx_rest)
            (weight_before ∷ d ∷ weight_rest)
          ≡ ok l)
        × Holds (hosts_of records) 0 l.mx l.mx_ptr
        × Holds (weights_of records) 0 l.weights l.weight_ptr
  unfolding php_getmxrr
  php_getmxrr_lem header asked records behind before c mx_rest weight_before d weight_rest qd an
        four more are_asked are mx_room weight_room =
      let body = records_bytes records ++ behind in
      let asked_on = questions_bytes asked ++ body in
      let answer = packet header asked records behind in
      let an_list = header.an_hi ∷ header.an_lo ∷ header.more ++ asked_on in
      let at_4 : drop (0 + length header.ident) answer ≡ header.qd_hi ∷ header.qd_lo ∷ an_list =
        drop-further answer 0 header.ident _ refl in
      let start : 0 + length header.ident ≡ 4 = omega (arith, four) in
      let on_4 : drop 4 answer ≡ header.qd_hi ∷ header.qd_lo ∷ an_list = rw start at at_4 in
      let on_6 : drop 6 answer ≡ an_list =
        drop-further answer 4 (header.qd_hi ∷ header.qd_lo ∷ []) an_list on_4 in
      let on_8 : drop 8 answer ≡ header.more ++ asked_on =
        drop-further answer 6 (header.an_hi ∷ header.an_lo ∷ []) _ on_6 in
      let at_12 : drop (8 + length header.more) answer ≡ asked_on =
        drop-further answer 8 header.more asked_on on_8 in
      let on_12 : drop 12 answer ≡ asked_on = rw more at at_12 in
      let l : Lists = record {
        mx = before ∷ 0 ∷ mx_rest;
        mx_ptr = 1;
        weights = weight_before ∷ 0 ∷ weight_rest;
        weight_ptr = 1;
      } in
      let (q, f, on_q) = questions-bytes skip expand answer asked 12 body l are_asked on_12 in
      let empty : HoldBoth [] [] (length (hosts_of records) + 0) (length (weights_of records) + 0)
          l =
        record {
          of_hosts = empty-Holds before mx_rest (length (hosts_of records) + 0) (omega arith);
          of_weights =
              empty-Holds weight_before weight_rest (length (weights_of records) + 0) (omega arith);
        } in
      let (last, g, k) =
        answers-bytes skip expand answer records q behind [] [] 0 0 l are on_q empty in
      (
        last,
        rw
            (
              sprintf-empty before c mx_rest,
              sprintf-empty weight_before d weight_rest,
              get16-drop answer 4 header.qd_hi header.qd_lo an_list on_4,
              get16-drop answer 6 header.an_hi header.an_lo (header.more ++ asked_on) on_6,
              sym qd,
              sym an,
              f,
            )
            g,
        k.of_hosts,
        k.of_weights,
      )
