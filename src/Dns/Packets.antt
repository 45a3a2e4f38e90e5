-- ===== src/Dns/Packets.antt =====
-- apps/pop_domain_parse.c: the questions and answers of a reply, read from a stream.
use poplar.Prelude.{
  ℕ, zero, suc, ◌+◌, ◌%◌, ◌^◌, Bool, true, false, List, Option, none, some, drop, bit_and, ◌==◌,
}
use poplar.Run.{Run, ok, fault, out_of_bounds, ◌>>=◌}
use poplar.Stream.Buffer.{Stream, stream_get_getp, stream_forward_getp}
use poplar.Stream.Get.{stream_getw, stream_getl, stream_getw_from}
use poplar.Dns.{strlen, name_of}

-- What a run on fuel does next; `none` is no fuel left.
infixl 5 ◌>>?◌
abbrev pub ◌>>?◌ {ℓ κ} :
    {A : Type ℓ} {B : Type κ} → Option (Run A) → (A → Option (Run B)) → Option (Run B)
none >>? f = none
some (fault e) >>? f = some (fault e)
some (ok a) >>? f = f a

-- DOMAIN_NAME_OFFSET_FLAG
abbrev pub is_offset : ℕ → Bool
is_offset w = bit_and w 0xc000 == 0xc000

-- 0, -1 and 1 of _dns_pkt_name_parse; the last comes with the name.
pub data Parsed : Type 0 where
  offset illegal : Parsed
  named : List ℕ → Parsed

-- The name at an offset: strlen() on it, and two bytes passed.
unfoldable pub name_at_offset : Stream → ℕ → Run (Parsed × Stream)
unfolding strlen stream_forward_getp
name_at_offset s w =
    strlen (drop (w % 2 ^ 14) s.bytes) >>= λ len. stream_forward_getp s 2 >>= λ s'. ok (offset, s')

-- The name itself, and the bytes of it passed.
unfoldable pub name_here : Stream → ℕ → Option (List ℕ) → Run (Parsed × Stream)
unfolding stream_forward_getp
name_here s len none = ok (illegal, s)
name_here s len (some name) = stream_forward_getp s (len + 1) >>= λ s'. ok (named name, s')

unfoldable pub dns_pkt_name_parse : ℕ → Stream → Option (Run (Parsed × Stream))
unfolding stream_get_getp stream_getw_from name_at_offset name_of strlen name_here
dns_pkt_name_parse fuel s = some (stream_get_getp s >>= λ p. stream_getw_from s p) >>? λ w.
    elim (is_offset w) [
      | true ↦ some (name_at_offset s w)
      | false ↦ some (strlen (drop s.getp s.bytes)) >>? λ len.
          name_of fuel (drop s.getp s.bytes) >>? λ name. some (name_here s len name)
    ]

pub record DomainNameQuestion : Type 0 where
  pub query_name : List ℕ
  pub query_type : ℕ
  pub query_class : ℕ

pub record DomainNameAnswer : Type 0 where
  pub query_name : Option (List ℕ)
  pub type_of : ℕ
  pub class_of : ℕ
  pub time_live : ℕ
  pub datalen : ℕ
  pub addr : ℕ

-- The end of DomainNameQuestionParse; NULL is `none`.
unfoldable pub question_rest : Parsed × Stream → Run (Option DomainNameQuestion × Stream)
unfolding stream_getw
question_rest (offset, s) = ok (none, s)
question_rest (illegal, s) = ok (none, s)
question_rest (named name, s) = stream_getw s >>= λ t. stream_getw t.1 >>= λ c.
    ok (some (record { query_name = name; query_type = t.0; query_class = c.0 }), c.1)

unfoldable pub domain_name_question_parse :
    ℕ → Stream → Option (Run (Option DomainNameQuestion × Stream))
unfolding dns_pkt_name_parse question_rest
domain_name_question_parse fuel s = dns_pkt_name_parse fuel s >>? λ r. some (question_rest r)

-- POP_DOMAIN_QUERY_TYPE_A and POP_DOMAIN_QUERY_CLASS_INTERNET_ADDR
abbrev pub query_type_a : ℕ
query_type_a = 1

abbrev pub query_class_internet_addr : ℕ
query_class_internet_addr = 1

-- The address, or as many bytes passed as the answer says.
unfoldable pub answer_data : Stream → ℕ → ℕ → Run (ℕ × Stream)
unfolding stream_getl stream_forward_getp
answer_data s type_of datalen = elim (type_of == query_type_a) [
  | true ↦ stream_getl s
  | false ↦ stream_forward_getp s datalen >>= λ s'. ok (0, s')
]

-- DomainNameAnswerParse from the type on.
unfoldable pub answer_fields : Option (List ℕ) → Stream → Run (Option DomainNameAnswer × Stream)
unfolding stream_getw stream_getl answer_data
answer_fields name s = stream_getw s >>= λ t. stream_getw t.1 >>= λ c. stream_getl c.1 >>= λ l.
    stream_getw l.1 >>= λ d. answer_data d.1 t.0 d.0 >>= λ a. ok (
      some (record {
        query_name = name;
        type_of = t.0;
        class_of = c.0;
        time_live = l.0;
        datalen = d.0;
        addr = a.0;
      }),
      a.1,
    )

unfoldable pub answer_rest : Parsed × Stream → Run (Option DomainNameAnswer × Stream)
unfolding answer_fields
answer_rest (illegal, s) = ok (none, s)
answer_rest (offset, s) = answer_fields none s
answer_rest (named name, s) = answer_fields (some name) s

unfoldable pub domain_name_answer_parse :
    ℕ → Stream → Option (Run (Option DomainNameAnswer × Stream))
unfolding dns_pkt_name_parse answer_rest
domain_name_answer_parse fuel s = dns_pkt_name_parse fuel s >>? λ r. some (answer_rest r)

-- The loop over the answers, with as many as are left, and what `Answer[i]` is behind it: behind the
-- last there is no element of the array. `none` is an answer that was not parsed.
unfoldable pub answer_loop : ℕ → ℕ → Stream → Option (Run (Option DomainNameAnswer))
unfolding domain_name_answer_parse
answer_loop zero fuel s = some (fault out_of_bounds)
answer_loop (suc left) fuel s = domain_name_answer_parse fuel s >>? λ r. elim r.0 [
  | none ↦ some (ok none)
  | some a ↦ elim (a.type_of == query_type_a) [
    | true ↦ some (ok (some a))
    | false ↦ answer_loop left fuel r.1
  ]
]

pub record DomainNameHeader : Type 0 where
  pub transaction_id : ℕ
  pub flags : ℕ
  pub questions : ℕ
  pub answer_rrs : ℕ
  pub authority_rrs : ℕ
  pub additional_rrs : ℕ

unfoldable pub header_parse : Stream → Run (DomainNameHeader × Stream)
unfolding stream_getw
header_parse s = stream_getw s >>= λ a. stream_getw a.1 >>= λ b. stream_getw b.1 >>= λ c.
    stream_getw c.1 >>= λ d. stream_getw d.1 >>= λ e. stream_getw e.1 >>= λ f. ok (
      record {
        transaction_id = a.0;
        flags = b.0;
        questions = c.0;
        answer_rrs = d.0;
        authority_rrs = e.0;
        additional_rrs = f.0;
      },
      f.1,
    )
