-- ===== src/Api/Download.antt =====
-- `handleDownload`, `parseSingleByteRange` and `serveRange` of api/download.go.
use mathlib.Core.List.{append-nil}
use obsideo_provider.Base.{
  ℕ, ◌+◌, ◌-◌, ◌≤◌, ◌<◌, ◌≡◌, inl, inr, refl, sym, ap, ◌∙◌, Option, none, some, List, [], ◌++◌,
  String, Bool, not, arith, str_eq, ltb, leb, if◌then◌else◌, length, take, drop, length-take,
  length-drop, take-append-drop, ok, err, Option-cases, Result-cases, subst,
}
use obsideo_provider.Base.Int.{ℤ, pos, negsuc}
use obsideo_provider.Merkle.Codec.{Bytes}
use obsideo_provider.Store.Disk.{Disk}
use obsideo_provider.Store.Objects.{get}
use obsideo_provider.Api.Tokens.{Claims, TokenCodec, authorize}
use obsideo_provider.Api.TokenLaws.{Passes, authorize-Passes}

-- strings.CutPrefix of "bytes=", strings.Contains of a comma, strings.Cut at a dash, and
-- strconv.ParseInt in base 10 to 64 bits.
pub record RangeCodec : Type 0 where
  pub cut_bytes_prefix : String → Option String
  pub has_comma : String → Bool
  pub cut_dash : String → Option (String × String)
  pub parse_int : String → Option ℤ

-- The start, and the last position; none of the latter is the end of the object (-1 in the source).
pub record ByteRange : Type 0 where
  pub start : ℕ
  pub end : Option ℕ

unfoldable pub parse_end : RangeCodec → ℕ → String → Option ByteRange
parse_end c start last =
    if str_eq last ""
    then some (record { start = start; end = none })
    else (elim (c.parse_int last) [
      | none ↦ none
      | some (negsuc n) ↦ none
      | some (pos end) ↦
          if ltb end start then none else some (record { start = start; end = some end })
    ])

unfoldable pub parse_single_byte_range : RangeCodec → String → Option ByteRange
unfolding parse_end
parse_single_byte_range c header = elim (c.cut_bytes_prefix header) [
  | none ↦ none
  | some spec ↦ if c.has_comma spec then none else (elim (c.cut_dash spec) [
    | none ↦ none
    | some (first, last) ↦ if str_eq first "" then none else (elim (c.parse_int first) [
      | none ↦ none
      | some (negsuc n) ↦ none
      | some (pos start) ↦ parse_end c start last
    ])
  ])
]

-- What goes to the client: nothing but the default status; an error; the whole object; or a part,
-- with the two positions and the size of Content-Range.
pub data Download : Type 0 where
  nothing : Download
  failed : ℕ → Download
  unsatisfiable : (size : ℕ) → Download
  whole : Bytes → Download
  partial : (start end size : ℕ) → Bytes → Download

-- The last position: the one asked for, or the last of the object if that comes first.
abbrev pub clamp : Option ℕ → ℕ → ℕ
clamp none size = size - 1
clamp (some end) size = if ltb (size - 1) end then size - 1 else end

-- io.CopyN and io.Copy to the client: the error of a copy that stops is ignored.
abbrev pub copied : (copy_stops : Option ℕ) → Bytes → Bytes
copied none bytes = bytes
copied (some n) bytes = take n bytes

-- `serveRange`; `stats` and `seeks` say whether the calls succeed, and `copy_stops` after how many bytes
-- the copy stops, if it does.
unfoldable pub serve_range :
    (stats seeks : Bool) → (copy_stops : Option ℕ) → String → ByteRange → Disk → Download
serve_range stats seeks copy_stops merkle r disk = elim (get merkle disk) [
  | err _ ↦ nothing
  | ok bytes ↦
      let size = length bytes in
      let end = clamp r.end size in
      if not stats
      then nothing
      else if leb size r.start
      then unsatisfiable size
      else if not seeks
      then failed 500
      else partial r.start end size
          (copied copy_stops (take (end - r.start + 1) (drop r.start bytes)))
]

-- `handleDownload`
unfoldable pub handle_download :
    TokenCodec
    → RangeCodec
    → (keys : List Bytes) → ℤ
    → (merkle : String) → (bearer : Option String) → (range : String) → (stats seeks : Bool)
    → (copy_stops : Option ℕ) → Disk
    → Download
handle_download t c keys now merkle bearer range stats seeks copy_stops disk =
    elim (authorize t keys now "download" merkle bearer) [
      | err st ↦ failed st
      | ok claims ↦ elim (parse_single_byte_range c range) [
        | some r ↦ serve_range stats seeks copy_stops merkle r disk
        | none ↦ elim (get merkle disk) [
          | err _ ↦ nothing
          | ok bytes ↦ whole (copied copy_stops bytes)
        ]
      ]
    ]

-- A range of an object of these bytes.
pub record IsRangeOf (bytes : Bytes) (start end size : ℕ) (part : Bytes) : Type 0 where
  pub before : Bytes
  pub behind : Bytes
  pub split : bytes ≡ before ++ (part ++ behind)
  pub starts : length before ≡ start
  pub ends : start + length part ≡ end + 1
  pub nonempty : start ≤ end
  pub sized : length bytes ≡ size
  pub within : end < size

cut_range :
    (bytes : Bytes) (start end : ℕ)
    → start ≤ end
    → end < length bytes
    → IsRangeOf bytes start end (length bytes) (take (end - start + 1) (drop start bytes))
cut_range bytes start end h k =
    let n = end - start + 1 in
    record {
      before = take start bytes;
      behind = drop n (drop start bytes);
      split = sym (
          ap (λ t. take start bytes ++ t) (take-append-drop n (drop start bytes))
          ∙ take-append-drop start bytes);
      starts = omega (arith, length-take start bytes);
      ends = omega (arith, length-take n (drop start bytes), length-drop start bytes);
      nonempty = h;
      sized = refl;
      within = k;
    }

-- What is sent of the range: all of it if the copy does not stop, and a first part of it in any case.
pub record IsSentOf (copy_stops : Option ℕ) (bytes : Bytes) (start end size : ℕ) (part : Bytes)
    : Type 0 where
  pub range : Bytes
  pub is_range : IsRangeOf bytes start end size range
  pub unsent : Bytes
  pub in_order : range ≡ part ++ unsent
  pub complete : copy_stops ≡ none → part ≡ range

copied-IsSentOf :
    (copy_stops : Option ℕ) (bytes : Bytes) (start end size : ℕ) (range : Bytes)
    → IsRangeOf bytes start end size range
    → IsSentOf copy_stops bytes start end size (copied copy_stops range)
copied-IsSentOf none bytes start end size range is_range = record {
  range = range;
  is_range = is_range;
  unsent = [];
  in_order = sym (append-nil range);
  complete = λ e. refl;
}
copied-IsSentOf (some n) bytes start end size range is_range = record {
  range = range;
  is_range = is_range;
  unsent = drop n range;
  in_order = sym (take-append-drop n range);
  complete = λ e. cc;
}

-- The answer in part is sent of a range of these bytes.
abbrev InRange : Option ℕ → Bytes → Download → Type 0
InRange copy_stops bytes (partial start end size part) =
    IsSentOf copy_stops bytes start end size part
InRange copy_stops bytes _ = Unit {0}

parse_end-ordered :
    (c : RangeCodec) (start : ℕ) (last : String) (r : ByteRange)
    → parse_end c start last ≡ some r
    → (end : ℕ) → r.end ≡ some end
    → r.start ≤ end
unfolding parse_end
parse_end-ordered c start last r h end e = ground arith

parse_range-ordered :
    (c : RangeCodec) (header : String) (r : ByteRange)
    → parse_single_byte_range c header ≡ some r
    → (end : ℕ) → r.end ≡ some end
    → r.start ≤ end
unfolding parse_single_byte_range
parse_range-ordered c header r h end e = elim (Option-cases (c.cut_bytes_prefix header)) [
  | inl missed ↦ absurd (ground arith)
  | inr (spec, p) ↦ elim (Option-cases (c.cut_dash spec)) [
    | inl missed ↦ absurd (ground arith)
    | inr ((first, last), q) ↦ elim (Option-cases (c.parse_int first)) [
      | inl missed ↦ absurd (ground arith)
      | inr (negsuc n, i) ↦ absurd (ground arith)
      | inr (pos start, i) ↦ parse_end-ordered c start last r (ground arith) end e
    ]
  ]
]

serve_range_lem :
    (stats seeks : Bool) (copy_stops : Option ℕ) (merkle : String) (r : ByteRange) (disk : Disk)
    (start end size : ℕ) (part : Bytes)
    → ((e : ℕ) → r.end ≡ some e → r.start ≤ e)
    → serve_range stats seeks copy_stops merkle r disk ≡ partial start end size part
    → (bytes : Bytes) × (get merkle disk ≡ ok bytes) × IsSentOf copy_stops bytes start end size part
unfolding serve_range
serve_range_lem stats seeks copy_stops merkle r disk start end size part h e =
    elim (Result-cases (get merkle disk)) [
      | inr (_, g) ↦ absurd (ground arith)
      | inl (bytes, g) ↦
          let stop = clamp r.end (length bytes) in
          let inside : r.start < length bytes = ground arith in
          let reaches : stop < length bytes = ground arith in
          let ordered : r.start ≤ stop = elim (Option-cases r.end) [
            | inl open_end ↦ rw open_end (omega arith)
            | inr (last, closed) ↦ let asked = h last closed in rw closed (ground arith)
          ] in
          let answer : partial r.start stop (length bytes)
                (copied copy_stops (take (stop - r.start + 1) (drop r.start bytes)))
              ≡ partial start end size part =
            ground arith in
          (
            bytes,
            g,
            subst (λ d. InRange copy_stops bytes d) answer
                (copied-IsSentOf copy_stops bytes r.start stop (length bytes) _
                  (cut_range bytes r.start stop ordered reaches)),
          )
    ]

-- A download answered in part: the token allowed it, and the bytes sent are those of the object between
-- the two positions of the Content-Range header, both included, or only the first of them if the copy to
-- the client stops; the positions lie within the object, whose size is the third number.
pub handle_download-IsSentOf :
    (t : TokenCodec) (c : RangeCodec) (keys : List Bytes) (now : ℤ) (merkle : String)
    (bearer : Option String) (range : String) (stats seeks : Bool) (copy_stops : Option ℕ)
    (disk : Disk) (start end size : ℕ) (part : Bytes)
    → handle_download t c keys now merkle bearer range stats seeks copy_stops disk
      ≡ partial start end size part
    → ((claims : Claims) × Passes t keys now "download" merkle bearer claims)
      × ((bytes : Bytes) × (get merkle disk ≡ ok bytes)
          × IsSentOf copy_stops bytes start end size part)
unfolding handle_download
handle_download-IsSentOf t c keys now merkle bearer range stats seeks copy_stops disk start end size
      part h =
    elim (Result-cases (authorize t keys now "download" merkle bearer)) [
      | inr (st, bad) ↦ absurd (ground arith)
      | inl (claims, fine) ↦ elim (Option-cases (parse_single_byte_range c range)) [
        | inl legacy ↦ absurd (ground arith)
        | inr (r, parsed) ↦ (
          (claims, authorize-Passes _ _ _ _ _ _ claims fine),
          serve_range_lem stats seeks copy_stops merkle r disk start end size part
              (parse_range-ordered c range r parsed) (ground arith),
        )
      ]
    ]
