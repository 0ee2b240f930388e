-- ===== src/Exchange/Tests.antt =====
-- An answer that comes in two reads, and the theorem at a concrete input.
use libpomelo.Common.{
  ℕ, ◌≡◌, refl, true, Option, none, some, List, [], ◌∷◌, if◌then◌else◌, arith, flatten,
}
use libpomelo.Common.{replicate, length-replicate}
use libpomelo.Common.Groups.{groups}
use libpomelo.Message.Sizes.{Grants}
use libpomelo.Common.Bytes.{same_str}
use libpomelo.Common.Outcome.{ok}
use libpomelo.HashMap.View.{view}
use libpomelo.Package.{parser_init, pkg_encode}
use libpomelo.Package.RoundTrip.{Encodes, done, next}
use libpomelo.Protobuf.Sample.{Value, object, end, values, number, built, digits}
use libpomelo.Client.{request_done, sent, Client}
use libpomelo.Client.Facts.{
  asking, asking_client, one_request, one_request-IsMap, one_request_waits,
}
use libpomelo.Client.Sample.{plenty, dice, writes}
use libpomelo.Exchange.{parse_default, reads}
use libpomelo.Exchange.Answers.{answers-called}
use libpomelo.Exchange.Again.{answered-twice}
use libpomelo.Common.{false, ◌++◌}
use libpomelo.HashMap.View.{IsMap}
use libpomelo.Message.{decode, decode_rest, decode_tail, decode_id, str}
use libpomelo.Client.Stop.{client_stop}
use libpomelo.Client.Dispatch.{pkg_cb}
use libpomelo.Client.Requests.{process_response}
use libpomelo.Exchange.Stream.{with_parser}
use libpomelo.Exchange.Waits.{Answer, answer_package}

-- The text is {}.
abbrev reply : Answer
reply = record { request = asking; id = 7; b = 123; text = 125 ∷ [] }

-- Its package, cut inside the head.
abbrev pieces : List (List ℕ)
pieces = (4 ∷ 0 ∷ 0 ∷ []) ∷ (4 ∷ 4 ∷ 7 ∷ 123 ∷ 125 ∷ []) ∷ []

abbrev loaded : List ℕ → Option Value
loaded text = some (object end)

abbrev memory_given : ℕ → Option (List ℕ)
memory_given n = some (replicate n 0)

memory_given-Grants : Grants memory_given
memory_given-Grants n = (replicate n 0, refl, length-replicate n 0)

reply_sent : Encodes plenty (answer_package reply ∷ []) (4 ∷ 0 ∷ 0 ∷ 4 ∷ 4 ∷ 7 ∷ 123 ∷ 125 ∷ [])
unfolding pkg_encode groups
reply_sent =
    next (answer_package reply) (4 ∷ 0 ∷ 0 ∷ 4 ∷ 4 ∷ 7 ∷ 123 ∷ 125 ∷ []) (omega arith) refl done

pieces_lem : flatten pieces ≡ 4 ∷ 0 ∷ 0 ∷ 4 ∷ 4 ∷ 7 ∷ 123 ∷ 125 ∷ []
unfolding flatten
pieces_lem = refl

answers-called_example :
    (c' : Client Value) × (reads plenty true dice values number built digits
        (λ v. v)
        (λ user. true)
        loaded
        (parse_default memory_given true values built digits loaded none)
        true
        writes
        0
        pieces
        (with_parser parser_init asking_client)
      ≡ ok c')
    × (c'.calls ≡ sent 1 ∷ request_done 7 true ∷ [])
    × ((k : List ℕ)
        → view true c'.requests k
          ≡ (if same_str (55 ∷ []) k then none else view true one_request k))
answers-called_example =
    answers-called memory_given memory_given-Grants plenty true dice values number built digits
      (λ v. v) (λ user. true) loaded none true writes 0 plenty (reply ∷ []) pieces
      (4 ∷ 0 ∷ 0 ∷ 4 ∷ 4 ∷ 7 ∷ 123 ∷ 125 ∷ []) asking_client (λ n. refl) reply_sent pieces_lem
      (tt, (tt, tt)) one_request-IsMap refl
      (
        record {
          pos = omega arith;
          small = omega arith;
          plain = refl;
          value = object end;
          loads = refl;
        },
        tt,
      )
      (one_request_waits, tt, tt)

answered-twice_example :
    (c₁ : Client Value) × (process_response true digits.decimal 7 asking_client ≡ ok c₁)
    × (c₁.calls ≡ sent 1 ∷ [] ++ request_done 7 true ∷ [])
    × ((k : List ℕ)
        → view true c₁.requests k
          ≡ (if same_str (55 ∷ []) k then none else view true one_request k))
    × IsMap c₁.requests
    × (pkg_cb plenty true dice values number built digits
          (λ v. v)
          (λ user. true)
          loaded
          (parse_default memory_given true values built digits loaded none)
          true
          writes
          (record { type = 4; bytes = 4 ∷ 7 ∷ 123 ∷ 125 ∷ [] })
          c₁
        ≡ client_stop dice c₁)
unfolding decode decode_rest decode_tail decode_id
answered-twice_example =
    answered-twice memory_given true values built digits loaded none plenty dice number (λ v. v)
      (λ user. true) true writes asking_client asking
      (record {
        id = 7;
        msg_type = 2;
        compress_route = false;
        route = str none;
        body = 123 ∷ 125 ∷ [];
      })
      (4 ∷ 7 ∷ 123 ∷ 125 ∷ []) one_request-IsMap refl refl one_request_waits
