-- ===== src/History/Examples.antt =====
-- The history's observations at concrete inputs.
use sniff4hound.Prelude.{
  inl, inr, List, ◌*◌, ◌≤◌, ◌≡◌, refl, true, false, none, some, [], ◌∷◌, length, any, All,
  number_eq,
}
use sniff4hound.Prelude.Text.{text, strip, strip_char, lower, is_space, is_empty, list_eq}
use sniff4hound.History.{
  seconds, Question, Records, DnsPacket, normalize_domain, max_records_per_packet, dns_observations,
}
use sniff4hound.History.Recorder.{Operation, ArpObservation, init}
use sniff4hound.History.Recorder.Flush.{Action, observes, flushes, run}
use sniff4hound.History.Recorder.Bounded.{Bounded}
use sniff4hound.History.Recorder.Pending.{run-Bounded_pending}
use sniff4hound.History.Bounds.{Sound, dns_observations-Sound, asks_for, dns_observations-asks_for}

abbrev question : Question
question = record { name = some (text " Example.ORG. "); record_type = some (text "A") }

abbrev records : Records
records = record {
  is_response = true;
  rcode = some (text "NXDOMAIN");
  answers =
      none
      ∷ some (record {
        name = some (text "a.org");
        record_type = none;
        data_ = some (text "10.0.0.1");
        ttl = seconds 60;
      })
      ∷ [];
  questions = some question ∷ [];
}

abbrev packet : DnsPacket
packet = record {
  records = some records;
  domain_source = none;
  transport = some (text "TCP");
  src_ip = some (text "10.0.0.53");
  dst_ip = some (text "10.0.0.7");
}

dns_observations-Sound_example :
    All (Sound packet records) (dns_observations packet)
    × (length (dns_observations packet) ≤ 2 * max_records_per_packet)
dns_observations-Sound_example = dns_observations-Sound packet records refl

named : is_empty (normalize_domain question.name) ≡ false
unfolding normalize_domain strip strip_char is_space lower
named = refl

dns_observations-asks_for_example :
    any (asks_for (normalize_domain (some (text " Example.ORG. ")))) (dns_observations packet)
    ≡ true
dns_observations-asks_for_example =
    dns_observations-asks_for packet records 0 question refl (inr (inl ((λ e. cc e), (λ e. cc e))))
      refl named

abbrev claim : ArpObservation
claim = record {
  ip = text "10.0.0.7";
  mac = text "aa:bb:cc:dd:ee:ff";
  operation = Operation.reply;
  interface = text "eth0";
  gratuitous = true;
  mismatch = [];
}

abbrev actions : List Action
actions =
    observes none [] (some claim) 100 1
    ∷ flushes false
    ∷ observes (some []) [] (some (record claim { ip = text "10.0.0.8" })) 101 2
    ∷ flushes true
    ∷ []

run-Bounded_pending_example : Bounded 1 (run (init 1) actions)
run-Bounded_pending_example = run-Bounded_pending 1 actions
