-- ===== src/Tests/Names.antt =====
-- A name server for `ab.c`, at 7.7.7.7.
use dnet_core.Base.{zero, suc, ℕ, List, [], ◌∷◌, ◌++◌, ◌≡◌, refl, some, map, arith}
use dnet_core.Net.{fault}
use dnet_core.Memory.{read_bytes}
use dnet_core.Dns
use dnet_core.Dns.{respond, copy_request, append_answer, append_answers}
use dnet_core.Dns.Record.{RecordKey, RecordValue}
use dnet_core.Dns.Name.{label_fuel, read_labels, read_name, to_lower}
use dnet_core.Dns.Header.{DnsHeader, to_header}
use dnet_core.Dns.Register.{encode_from, encode_name}
use dnet_core.Dns.NameLaws.{read_labels_fuel, read_name-encode_name}
use dnet_core.Dns.Answer.{root_query_faults}
use dnet_core.Dns.Serve.{
  dns_packet, query_bytes, answer_bytes, question_answered, question_unanswered,
  long_question_faults,
}
use dnet_core.Dns.{answers, equal_range, text_beq}
use dnet_core.Net.{Net, emit, ok, fault}
use dnet_core.Addr.{contains}
use dnet_core.Tests.{peer_mac, edns, opt, us, guest, start}

abbrev name_text : List ℕ
name_text = b'A' ∷ b'b' ∷ b'.' ∷ b'c' ∷ []

read_name-encode_name_example :
    read_name (encode_name name_text ++ 1 ∷ []) ≡ some (map to_lower name_text, 0 ∷ 1 ∷ [])
read_name-encode_name_example =
    read_name-encode_name name_text (1 ∷ []) (omega arith) (omega arith) (omega arith)

read_labels_fuel_example :
    read_labels 400 [] (1 ∷ b'x' ∷ 0 ∷ []) ≡ read_labels label_fuel [] (1 ∷ b'x' ∷ 0 ∷ [])
read_labels_fuel_example =
    read_labels_fuel 400 label_fuel [] (1 ∷ b'x' ∷ 0 ∷ []) (omega arith) (omega arith) (omega arith)

-- The question for the address of `x`: header, name, type and class.
abbrev query : List ℕ
query = 0 ∷ 9 ∷ 1 ∷ 0 ∷ 0 ∷ 1 ∷ 0 ∷ 0 ∷ 0 ∷ 0 ∷ 0 ∷ 0 ∷ 1 ∷ b'x' ∷ 0 ∷ 0 ∷ 1 ∷ 0 ∷ 1 ∷ []

abbrev key_x : RecordKey
key_x = record { rtype = 1; name = b'x' ∷ [] }

abbrev value_x : RecordValue
value_x = record { rdlength = 4; rdata = 7 ∷ 7 ∷ 7 ∷ 7 ∷ [] }

abbrev reply : List ℕ
reply =
    0 ∷ 9 ∷ 133 ∷ 0 ∷ 0 ∷ 1 ∷ 0 ∷ 1 ∷ 0 ∷ 0 ∷ 0 ∷ 0 ∷ 1 ∷ b'x' ∷ 0 ∷ 0 ∷ 1 ∷ 0 ∷ 1 ∷ 0xc0 ∷ 0x0c ∷ 0
    ∷ 1 ∷ 0 ∷ 1 ∷ 0 ∷ 0 ∷ 0 ∷ 60 ∷ 0 ∷ 4 ∷ 7 ∷ 7 ∷ 7 ∷ 7 ∷ []

replied : respond query 19 19 1 ((key_x, value_x) ∷ []) ≡ some reply
unfolding respond copy_request append_answers append_answer read_bytes
replied = refl

-- The same, asked for in upper case, of a server whose table has one record.
abbrev served : Net
served = record start { dns_records = (key_x, value_x) ∷ [] }

abbrev upper_query : List ℕ
upper_query = query_bytes (0, 9) edns 1 0 (b'X' ∷ []) 1 opt

question_answered_example :
    Dns.on_recv upper_query 30 guest 4096 us 53 served
    ≡ ok tt (
        emit
          (dns_packet served peer_mac guest 4096 us 53
            (answer_bytes (0, 9) 1 0 (b'X' ∷ []) 1 ((key_x, value_x) ∷ [])))
          served)
unfolding encode_from answers equal_range text_beq to_lower contains
question_answered_example =
    question_answered served (0, 9) edns 1 0 (b'X' ∷ []) opt 1 30 guest us 4096 53 (omega arith)
      (omega arith) (omega arith) (omega arith) (omega arith) (key_x, value_x) [] refl refl
      (refl, tt) (omega arith)

-- The same of a server without records.
question_unanswered_example :
    Dns.on_recv upper_query 30 guest 4096 us 53 start
    ≡ ok tt (
        emit
          (dns_packet start peer_mac guest 4096 us 53
            (query_bytes (0, 9) edns 129 0 (b'X' ∷ []) 1 opt))
          start)
unfolding encode_from answers equal_range contains
question_unanswered_example =
    question_unanswered start (0, 9) edns 1 0 (b'X' ∷ []) opt 1 30 guest us 4096 53 (omega arith)
      (omega arith) (omega arith) (omega arith) (omega arith) refl refl refl (omega arith)

abbrev zeros : ℕ → List ℕ
zeros zero = []
zeros (suc k) = 0 ∷ zeros k

-- The same with 600 bytes.
long_question_faults_example :
    Dns.on_recv (query_bytes (0, 9) edns 1 0 (b'X' ∷ []) 1 (zeros 581)) 600 guest 4096 us 53 start
    ≡ fault
unfolding answers equal_range
long_question_faults_example =
    long_question_faults start (0, 9) edns 1 0 (b'X' ∷ []) (zeros 581) 1 600 guest us 4096 53
      (omega arith) (omega arith) (omega arith) (omega arith) (omega arith) refl (omega arith)

-- The question for the root name.
abbrev root_query : List ℕ
root_query = 0 ∷ 9 ∷ 1 ∷ 0 ∷ 0 ∷ 1 ∷ 0 ∷ 0 ∷ 0 ∷ 0 ∷ 0 ∷ 0 ∷ 0 ∷ 0 ∷ 1 ∷ 0 ∷ 1 ∷ []

abbrev root_header : DnsHeader
root_header = record {
  id = 9;
  rd = 1;
  tc = 0;
  aa = 0;
  opcode = 0;
  qr = 0;
  rcode = 0;
  reserved = 0;
  ra = 0;
  qdcount = 1;
  ancount = 0;
  nscount = 0;
  arcount = 0;
  payload = 0 ∷ 0 ∷ 1 ∷ 0 ∷ 1 ∷ [];
}

root_query_faults_example : Dns.on_recv root_query 17 guest 4096 us 53 start ≡ fault
unfolding to_header
root_query_faults_example =
    root_query_faults start root_query 17 guest us 4096 53 {h = root_header} refl
      (0 ∷ 1 ∷ 0 ∷ 1 ∷ []) refl refl refl
