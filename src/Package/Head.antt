-- ===== src/Package/Head.antt =====
-- `pc__pkg_head` of src/package.c: one round in the head of a package.
use libpomelo.Common.{
  ℕ, zero, suc, ◌+◌, ◌-◌, ◌≤◌, ◌<◌, ◌≡◌, refl, sym, ◌∙◌, ap, subst, Bool, true, Option, none, some,
  List, ◌++◌, append_assoc, append-nil, length, take, drop, replicate, length-append, length-take,
  length-drop, length-splice, length-replicate, take-splice, take_all, take-append-drop, lt_or_le,
  Bool-cases, ltb, ◌==◌, if◌then◌else◌, ltb-true, ==_true, ==_false, inl, inr, min, arith,
}
use libpomelo.Package.{
  Parser, head, body, size_sub, head_len, contents, head_write, head_done, pkg_head, body_stage,
  after_head,
}
use libpomelo.Package.Holds.{InBody, InHead, in_head, Good, Good-shift, size_sub_lem}
use libpomelo.Package.Body.{body_stage-Good}

-- The head with `len` bytes more; it may be complete.
record InFilled (p q : Parser) (acc : List ℕ) : Type 0 where
  in_state : q.state ≡ head
  head_width : length q.head_buf ≡ 4
  sized : q.head_size ≡ 4
  offset : q.head_offset ≡ length acc
  reads : acc ≡ take (length acc) q.head_buf
  no_buffer : q.pkg_buf ≡ none

head_write-InFilled :
    {p : Parser} {acc : List ℕ} (h : InHead p acc) (len : ℕ) (bytes : List ℕ)
    → length acc + len ≤ 4
    → len ≤ length bytes
    → InFilled p (head_write p len bytes) (acc ++ take len bytes)
unfolding head_write
head_write-InFilled {p} {acc} h len bytes fits enough =
    let t = length-take len bytes in
    let grown = length-append acc (take len bytes) in
    record {
      in_state = h.in_state;
      head_width =
          length-splice p.head_buf p.head_offset (take len bytes)
            (omega (arith, h.head_width, h.offset))
          ∙ h.head_width;
      sized = h.sized;
      offset = omega (arith, h.offset);
      reads = sym (
          take-splice p.head_buf p.head_offset (take len bytes) (length (acc ++ take len bytes))
            (omega (arith, h.head_width, h.offset)) (omega (arith, h.offset))
          ∙ ap (λ z. z ++ take len bytes) (sym h.reads));
      no_buffer = h.no_buffer;
    }

buffer : ℕ → Option (List ℕ) → Option (List ℕ)
buffer n old = if ltb 0 n then some (replicate n 0) else old

length-buffer : (n : ℕ) (old : Option (List ℕ)) → old ≡ none → length (contents (buffer n old)) ≡ n
unfolding buffer
length-buffer zero old e = rw e refl
length-buffer (suc n) old e = rw (ltb-true 0 (suc n) (omega arith)) (length-replicate (suc n) 0)

-- The parser at the start of a body.
abbrev begun : Parser → Parser
begun p = record p {
  pkg_buf = buffer (head_len p.head_buf) p.pkg_buf;
  pkg_offset = 0;
  pkg_size = head_len p.head_buf;
  state = body;
}

begun-InBody :
    (p : Parser)
    → length p.head_buf ≡ 4
    → p.head_size ≡ 4
    → p.pkg_buf ≡ none
    → InBody (begun p) p.head_buf
begun-InBody p w z nb = record {
  in_state = refl;
  head_width = w;
  sized = z;
  counted = refl;
  within = omega arith;
  width = length-buffer (head_len p.head_buf) p.pkg_buf nb;
  reads = sym (append-nil p.head_buf);
}

module _ (malloc : ℕ → Bool) (granted : (n : ℕ) → malloc n ≡ true) where
  head_done-begun : (p : Parser) (rest : List ℕ) → head_done malloc p rest ≡ (begun p, some rest)
  unfolding head_done buffer
  head_done-begun p rest = elim (Bool-cases (ltb 0 (head_len p.head_buf))) [
    | inl e ↦ rw (e, granted (head_len p.head_buf))
    | inr e ↦ rw e
  ]

  filled-Good :
      {p q : Parser} {acc : List ℕ} (h : InFilled p q acc) (rest : List ℕ) (n : ℕ)
      → length acc ≤ 4
      → length rest < n
      → Good acc rest n (
          after_head
            (if q.head_offset == q.head_size then head_done malloc q rest else (q, some rest)))
  filled-Good {p} {q} {acc} h rest n le lt = elim (lt_or_le (length acc) 4) [
    | inl open_head ↦ rw (==_false q.head_offset q.head_size (omega (arith, h.offset, h.sized))) (
        subst (λ st. Good acc rest n (body_stage st q rest)) (sym h.in_state)
          (
            acc,
            in_head (record {
              in_state = h.in_state;
              head_width = h.head_width;
              sized = h.sized;
              offset = h.offset;
              within = open_head;
              reads = h.reads ∙ ap (λ k. take k q.head_buf) (sym h.offset);
              no_buffer = h.no_buffer;
            }),
            lt,
            λ qs u k. k,
          ))
    | inr full ↦
        rw (==_true q.head_offset q.head_size (omega (arith, h.offset, h.sized)), head_done-begun)
          (Good-shift q.head_buf acc rest rest n _
            (ap (λ z. z ++ rest)
              (sym (h.reads ∙ take_all (length acc) q.head_buf (omega (arith, h.head_width)))))
            (body_stage-Good (begun-InBody q h.head_width h.sized h.no_buffer) rest n
              (omega arith)))
  ]

  -- The head stage: a head that stays open keeps its bytes, and a complete one begins the body.
  pub head_stage-Good :
      {p : Parser} {acc : List ℕ} (h : InHead p acc) (bytes : List ℕ)
      → 0 < length bytes
      → Good acc bytes (length bytes) (after_head (pkg_head malloc p bytes))
  unfolding pkg_head
  head_stage-Good {p} {acc} h bytes pos =
      let len = min (4 - length acc) (length bytes) in
      let sub : size_sub p.head_size p.head_offset ≡ 4 - length acc =
        rw (h.sized, h.offset)
          (size_sub_lem 4 (length acc) (omega (arith, h.within)) (omega arith)) in
      let grown = length-append acc (take len bytes) in
      let t = length-take len bytes in
      rw sub (
        Good-shift (acc ++ take len bytes) acc (drop len bytes) bytes (length bytes) _
          (append_assoc acc (take len bytes) (drop len bytes)
            ∙ ap (λ z. acc ++ z) (take-append-drop len bytes))
          (filled-Good (head_write-InFilled h len bytes (omega (arith, h.within)) (omega arith))
            (drop len bytes) (length bytes) (omega arith)
            (omega (arith, length-drop len bytes, h.within))))
