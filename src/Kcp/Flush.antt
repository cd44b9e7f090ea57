-- ===== src/Kcp/Flush.antt =====
-- Update and flush on a valid session.
use oiwest_core.Common.{
  ℕ, ◌+◌, ◌-◌, ◌/◌, ◌%◌, ◌^◌, ◌≤◌, ◌≡◌, refl, ap, ◌∙◌, inl, inr, true, false, ◌||◌, List, [], ◌∷◌,
  ◌++◌, map, ltb, leb, ◌==◌, if◌then◌else◌, length, take, drop, copy_at, length-append, length-take,
  length-drop, length-map, All, All-append, All-map, ok, Bool-cases, arith, le→leb,
}
use oiwest_core.Common.Copying.{length-copy_at}
use oiwest_core.Kcp.Valid.{
  number-Numbered, Numbered-append, number-once, Numbered-transmit, transmit-once, length-number,
  IsValid,
}
use oiwest_core.Kcp.{
  Segment, State, AckItem, overhead, encode_segment, encode_at, zero_segment, probe_times,
  probe_due, number, enqueue, transmitted, transmit, transmit_all, emit, acknowledge, write_probes,
  flush, start_time, update, header_bytes, cmd_wask, cmd_wins,
}

-- Encoding at an offset that leaves room for a header keeps the length of the buffer.
pub encode_at_ok :
    (offset : ℕ) (buf : List ℕ) (s : Segment)
    → offset + overhead ≤ length buf
    → (buf' : List ℕ) × (encode_at offset buf s ≡ ok buf') × (length buf' ≡ length buf)
unfolding encode_at encode_segment
encode_at_ok offset buf s h =
    let tail = drop offset buf in
    let cut = length-drop offset buf in
    let mid = length-copy_at tail 0 (header_bytes s) in
    (
      take offset buf ++ copy_at (copy_at tail 0 (header_bytes s)) overhead s.body,
      rw (le→leb offset (length buf) (omega arith), le→leb overhead (length tail) (omega arith))
          refl,
      omega (
        arith,
        length-append (take offset buf) (copy_at (copy_at tail 0 (header_bytes s)) overhead s.body),
        length-take offset buf,
        length-copy_at (copy_at tail 0 (header_bytes s)) overhead s.body,
      ),
    )

-- The loop over the send buffer, on a buffer with room: it goes through, keeps the length of the
-- buffer, and finds no segment sent too often.
pub transmit_all_ok :
    (k : State) (q : List Segment) (buf : List ℕ)
    → k.reserved + overhead ≤ length buf
    → k.dead_link ≡ 20
    → All (λ (s : Segment). s.xmit ≤ 1) q
    → (buf' : List ℕ) × (transmit_all k q buf ≡ ok (buf', map (transmit k) q, false))
      × (length buf' ≡ length buf)
unfolding transmit_all
transmit_all_ok k [] buf h l o = (buf, refl, refl)
transmit_all_ok k (s ∷ q) buf h l (o, os) =
    let once = transmit-once k s o in
    let low : leb k.dead_link (transmit k s).xmit ≡ false = ground arith in
    elim (Bool-cases (s.xmit == 0)) [
      | inl new ↦
          let (b1, e1, n1) = encode_at_ok k.reserved buf (transmitted k s) h in
          let (b2, e2, n2) = transmit_all_ok k q b1 (omega arith) l os in
          (b2, rw (new, e1, e2, low) refl, n2 ∙ n1)
      | inr old ↦
          let (b2, e2, n2) = transmit_all_ok k q buf h l os in (b2, rw (old, e2, low) refl, n2)
    ]

pub write_probes_ok :
    (k : State) (buf : List ℕ)
    → k.reserved + overhead ≤ length buf
    → (buf' : List ℕ) × (write_probes k buf ≡ ok buf') × (length buf' ≡ length buf)
unfolding write_probes
write_probes_ok k buf h = elim (Bool-cases (k.rmt_wnd == 0)) [
  | inr open_ ↦ (buf, rw open_ refl, refl)
  | inl shut ↦
      let (b1, e1, n1) = ask in
      let (b2, e2, n2) = tell b1 (omega arith) in (b2, rw (shut, e1, e2) refl, n2 ∙ n1)
]
  where
    ask :
        (b1 : List ℕ) × ((if k.probe % 2 == 1
            then encode_at k.reserved buf (record zero_segment { conv = k.conv; cmd = cmd_wask })
            else ok buf)
          ≡ ok b1)
        × (length b1 ≡ length buf)
    ask = elim (Bool-cases (k.probe % 2 == 1)) [
      | inl e ↦
          let (b1, e1, n1) =
            encode_at_ok k.reserved buf (record zero_segment { conv = k.conv; cmd = cmd_wask }) h in
          (b1, rw e e1, n1)
      | inr e ↦ (buf, rw e refl, refl)
    ]

    tell :
        (b1 : List ℕ)
        → k.reserved + overhead ≤ length b1
        → (b2 : List ℕ) × ((if k.probe / 2 % 2 == 1
              then encode_at k.reserved b1
                  (record zero_segment { conv = k.conv; cmd = cmd_wins; wnd = k.rcv_wnd })
              else ok b1)
            ≡ ok b2)
          × (length b2 ≡ length b1)
    tell b1 l = elim (Bool-cases (k.probe / 2 % 2 == 1)) [
      | inl e ↦
          let (b2, e2, n2) =
            encode_at_ok k.reserved b1
              (record zero_segment { conv = k.conv; cmd = cmd_wins; wnd = k.rcv_wnd }) l in
          (b2, rw e e2, n2)
      | inr e ↦ (b1, rw e refl, refl)
    ]

-- What flush has in its send buffer: the old segments and the queued ones, numbered.
abbrev pub gathered : State → State
gathered k = enqueue (probe_due (probe_times k))

pub gathered_keeps :
    (k : State)
    → ((gathered k).reserved ≡ k.reserved)
      × ((gathered k).buf ≡ k.buf)
      × ((gathered k).acklist ≡ k.acklist)
      × ((gathered k).dead ≡ k.dead)
      × ((gathered k).dead_link ≡ k.dead_link)
unfolding enqueue probe_due probe_times
gathered_keeps k = ground arith

pub gathered_buf :
    (k : State)
    → ((gathered k).snd_buf ≡ k.snd_buf ++ number (probe_due (probe_times k)) k.snd_nxt k.snd_queue)
      × ((gathered k).snd_nxt ≡ (k.snd_nxt + length k.snd_queue) % 2 ^ 32)
      × ((gathered k).snd_queue ≡ [])
unfolding enqueue probe_due probe_times
gathered_buf k = ground arith

-- A later session has at least the segments of the earlier one in its send buffer.
abbrev pub Keeps : State → State → Type 0
Keeps k k' = length k.snd_buf ≤ length k'.snd_buf

pub gathered-IsValid : (k : State) → IsValid k → IsValid (gathered k)
gathered-IsValid k v =
    let (r, b, a, d, l) = gathered_keeps k in
    let (sb, sn, sq) = gathered_buf k in
    let p = probe_due (probe_times k) in
    let fresh = number p k.snd_nxt k.snd_queue in
    let size = length-append k.snd_buf fresh in
    let more = length-number p k.snd_nxt k.snd_queue in
    record {
      room = rw (r, b) v.room;
      silent = a ∙ v.silent;
      alive = d ∙ v.alive;
      limit = l ∙ v.limit;
      fresh = rw sq tt;
      once = rw sb (
          All-append (λ (s : Segment). s.xmit ≤ 1) k.snd_buf fresh v.once
            (number-once p k.snd_nxt k.snd_queue v.fresh));
      numbered = rw sb (
          Numbered-append 0 k.snd_buf fresh v.numbered (
            number-Numbered p k.snd_nxt (0 + length k.snd_buf) k.snd_queue
              (omega (arith, v.next))));
      next = rw (sb, sn) (omega (arith, v.next, size, more));
    }

pub acknowledge_none :
    (k : State) (l : List AckItem) (buf : List ℕ) → l ≡ [] → acknowledge k l buf ≡ ok buf
unfolding acknowledge
acknowledge_none k [] buf e = refl
acknowledge_none k (a ∷ l) buf e = cc

-- The end of flush on a valid session.
pub emit_ok :
    (g : State)
    → IsValid g
    → (k' : State) × (emit g ≡ ok k')
      × IsValid k'
      × (k'.snd_queue ≡ g.snd_queue)
      × (length k'.snd_buf ≡ length g.snd_buf)
unfolding emit
emit_ok g v =
    let (b1, e1, n1) = transmit_all_ok g g.snd_buf g.buf v.room v.limit v.once in
    let (b2, e2, n2) = write_probes_ok g b1 (omega (arith, n1, v.room)) in
    let sent = length-map g.snd_buf (transmit g) in
    (
      record g {
        snd_buf = map (transmit g) g.snd_buf;
        dead = g.dead || false;
        acklist = [];
        probe = 0;
        buf = b2;
      },
      rw (e1, acknowledge_none g g.acklist b1 v.silent, e2) refl,
      record {
        room = omega (arith, n2, n1, v.room);
        silent = refl;
        alive = rw v.alive refl;
        limit = v.limit;
        fresh = v.fresh;
        once =
            All-map (λ (s : Segment). s.xmit ≤ 1) (λ (s : Segment). s.xmit ≤ 1) (transmit g)
              g.snd_buf (transmit-once g) v.once;
        numbered = Numbered-transmit g 0 g.snd_buf v.numbered;
        next = omega (arith, v.next, sent);
      },
      refl,
      sent,
    )

-- flush on a valid session does not panic: it moves all queued segments into the send buffer, and the
-- session stays valid.
pub flush_lem :
    (k : State)
    → IsValid k
    → (k' : State) × (flush k ≡ ok k')
      × IsValid k'
      × (k'.snd_queue ≡ [])
      × (length k'.snd_buf ≡ length k.snd_buf + length k.snd_queue)
unfolding flush
flush_lem k v =
    let (sb, sn, sq) = gathered_buf k in
    let (k', e, v', q, n) = emit_ok (gathered k) (gathered-IsValid k v) in
    let fresh = number (probe_due (probe_times k)) k.snd_nxt k.snd_queue in
    let more = length-number (probe_due (probe_times k)) k.snd_nxt k.snd_queue in
    (
      k',
      e,
      v',
      q ∙ sq,
      n ∙ ap length sb ∙ length-append k.snd_buf fresh ∙ ap (λ m. length k.snd_buf + m) more,
    )

-- What Update does to a session before it may flush.
abbrev timed : ℕ → ℕ → State → State
timed current t k = record k { current = current; updated = true; ts_flush = t }

pub timed-IsValid : (current t : ℕ) (k : State) → IsValid k → IsValid (timed current t k)
timed-IsValid current t k v = record {
  room = v.room;
  silent = v.silent;
  alive = v.alive;
  limit = v.limit;
  fresh = v.fresh;
  once = v.once;
  numbered = v.numbered;
  next = v.next;
}

pub start_time_form :
    (current : ℕ) (k : State) → (t : ℕ) × (start_time current k ≡ timed current t k)
unfolding start_time
start_time_form current k =
    let t0 = if k.updated then k.ts_flush else current in
    (if leb (t0 + 10000) current || ltb (current + 10000) t0 then current else t0, ground arith)

-- Update on a valid session does not panic and leaves a valid session, with no fewer segments in its
-- send buffer.
pub update_lem :
    (current : ℕ) (k : State)
    → IsValid k
    → (k' : State) × (update current k ≡ ok k') × IsValid k' × Keeps k k'
unfolding update
update_lem current k v =
    let (t, form) = start_time_form current k in
    let k1 = timed current t k in
    let t' = current - (k.interval - (current - t) % k.interval) in
    elim (Bool-cases (leb k.interval (current - t))) [
      | inl due ↦
          let (k', e, v', q, n) = flush_lem (timed current t' k) (timed-IsValid current t' k v) in
          (k', rw (form, due) e, v', omega arith)
      | inr early ↦ (k1, rw (form, early) refl, timed-IsValid current t k v, omega arith)
    ]
