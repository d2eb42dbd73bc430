-- ===== src/Storage/Setup/Laws.antt =====
-- A configuration that came on a card stays when the card is taken out.
use esp_fmb.Prelude.{ℕ, ◌<◌, ◌≡◌, refl, ap, ap₂, ◌∙◌, Bool, true, false, none, some, List, length}
use esp_fmb.Prelude.Int.{pos}
use esp_fmb.Scenario.{HdrRec}
use esp_fmb.Config.{Conf, no_conf, read_cfg}
use esp_fmb.Storage.{Files, sd_conf, find_file, put_file, any_conf, print_dir, wr_file}
use esp_fmb.Storage.Setup.{
  Start, if_present, card_text, copy_unless, if_kept, disk_files, copy_conf, attempt, or_built_in,
  choose_conf, set_up_conf, lines,
}
use esp_fmb.Storage.Laws.{
  NoZero, Complete, find_file-any, find_file-put_file, cut_at-NoZero, rd_file-all, wr_file-all,
  print_dir-any,
}

-- A start with card and disk mounted, both listed, the pin that deletes the file of the disk released
-- (`delit` is its level), and `n` bytes copied.
abbrev pub Copies : ℕ → Start → Type 0
Copies n s =
    (s.card_mount ≡ true)
    × (s.disk_mount ≡ true)
    × (s.card_listed ≡ true)
    × (s.disk_listed ≡ true)
    × (s.delit ≡ true)
    × Complete n s.reading
    × Complete n s.writing

-- A start without a card, with the disk mounted and that pin released.
abbrev pub Bare : Start → Type 0
Bare s = (s.card_mount ≡ false) × (s.disk_mount ≡ true) × (s.delit ≡ true)

card_text-found :
    (s : Start) (card : Files) (text : List ℕ)
    → find_file sd_conf card ≡ some text
    → 0 < length text
    → length text < 2048
    → Copies (length text) s
    → card_text s.card_mount s card ≡ some text
card_text-found s card text f z l k =
    ap (λ b. card_text b s card) k.0
    ∙ ap (λ b. if_present b s card)
        (print_dir-any s.card_listed card true k.2 (find_file-any card text f))
    ∙ rd_file-all s.reading card text f z l k.5

copy_conf-copied :
    (s : Start) (card disk : Files) (text : List ℕ)
    → find_file sd_conf card ≡ some text
    → 0 < length text
    → length text < 2048
    → NoZero text
    → any_conf disk ≡ false
    → Copies (length text) s
    → copy_conf s card disk ≡ put_file sd_conf text disk
unfolding copy_conf
copy_conf-copied s card disk text f z l n d k =
    ap₂ (λ b o. disk_files b o s disk) k.1 (card_text-found s card text f z l k)
    ∙ ap (λ b. if_kept b (some text) s disk) k.4
    ∙ ap (λ b. copy_unless b (some text) s disk) (print_dir-any s.disk_listed disk false k.3 d)
    ∙ ap (λ x. (wr_file true s.writing sd_conf x disk).1) (cut_at-NoZero text n)
    ∙ wr_file-all s.writing disk text k.6

copy_unless-none : (b : Bool) (s : Start) (disk : Files) → copy_unless b none s disk ≡ disk
copy_unless-none true s disk = refl
copy_unless-none false s disk = refl

copy_conf-Bare : (s : Start) (card disk : Files) → Bare s → copy_conf s card disk ≡ disk
unfolding copy_conf
copy_conf-Bare s card disk k =
    ap₂ (λ b c. disk_files b (card_text c s card) s disk) k.1 k.0
    ∙ ap (λ b. if_kept b none s disk) k.2
    ∙ copy_unless-none (print_dir s.disk_listed disk) s disk

module _ (fgets : List ℕ → List (List ℕ)) (coord : List ℕ → ℕ) (allocated : HdrRec → Bool) where
  attempt-file :
      (buffers : Bool) (fs : Files) (text : List ℕ) (h : HdrRec)
      → find_file sd_conf fs ≡ some text
      → attempt fgets coord allocated true buffers fs (some (pos 1, no_conf, h))
        ≡ read_cfg coord allocated buffers (fgets text) no_conf h
  attempt-file buffers fs text h f =
      ap (λ o. read_cfg coord allocated buffers (lines fgets coord allocated o) no_conf h) f

  attempt-done :
      (mounted buffers : Bool) (fs : Files) (cf : Conf) (h : HdrRec)
      → attempt fgets coord allocated mounted buffers fs (some (pos 0, cf, h)) ≡ some (pos 0, cf, h)
  attempt-done true buffers fs cf h = refl
  attempt-done false buffers fs cf h = refl

  choose_conf-card :
      (s : Start) (card disk : Files) (text : List ℕ) (cf : Conf) (h k : HdrRec)
      → s.card_mount ≡ true
      → find_file sd_conf card ≡ some text
      → read_cfg coord allocated s.card_buffers (fgets text) no_conf h ≡ some (pos 0, cf, k)
      → choose_conf fgets coord allocated s card disk h ≡ some (cf, k)
  unfolding choose_conf
  choose_conf-card s card disk text cf h k m f r =
      let try = attempt fgets coord allocated s.disk_mount s.disk_buffers disk in
      ap
        (λ b.
          or_built_in fgets coord allocated
            (try (attempt fgets coord allocated b s.card_buffers card (some (pos 1, no_conf, h)))))
        m
      ∙ ap (λ o. or_built_in fgets coord allocated (try o))
          (attempt-file s.card_buffers card text h f ∙ r)
      ∙ ap (or_built_in fgets coord allocated) (attempt-done s.disk_mount s.disk_buffers disk cf k)

  choose_conf-disk :
      (s : Start) (card disk : Files) (text : List ℕ) (cf : Conf) (h k : HdrRec)
      → s.card_mount ≡ false
      → s.disk_mount ≡ true
      → find_file sd_conf disk ≡ some text
      → read_cfg coord allocated s.disk_buffers (fgets text) no_conf h ≡ some (pos 0, cf, k)
      → choose_conf fgets coord allocated s card disk h ≡ some (cf, k)
  unfolding choose_conf
  choose_conf-disk s card disk text cf h k m n f r =
      ap₂
        (λ b c. or_built_in fgets coord allocated (
          attempt fgets coord allocated b s.disk_buffers disk
            (attempt fgets coord allocated c s.card_buffers card (some (pos 1, no_conf, h)))))
        n m
      ∙ ap (or_built_in fgets coord allocated) (attempt-file s.disk_buffers disk text h f ∙ r)

-- A card holds a configuration file of less than 2048 bytes, none of them zero, that `read_cfg`
-- accepts, and the disk has no such file. A start that mounts and lists both volumes, reads and writes
-- the whole file, and finds the pin released that deletes the file of the disk, uses this
-- configuration and copies the file. The next start, without a card, with the disk mounted, the pin
-- released and the same answer of the allocator, uses the same one and leaves the disk as it is.
pub set_up_conf-copied :
    (fgets : List ℕ → List (List ℕ)) (coord : List ℕ → ℕ) (allocated : HdrRec → Bool) (s t : Start)
    (card other disk : Files) (text : List ℕ) (cf : Conf) (h k : HdrRec)
    → find_file sd_conf card ≡ some text
    → 0 < length text
    → length text < 2048
    → NoZero text
    → any_conf disk ≡ false
    → Copies (length text) s
    → Bare t
    → t.disk_buffers ≡ s.card_buffers
    → read_cfg coord allocated s.card_buffers (fgets text) no_conf h ≡ some (pos 0, cf, k)
    → (set_up_conf fgets coord allocated s card disk h ≡ (put_file sd_conf text disk, some (cf, k)))
      × (set_up_conf fgets coord allocated t other (put_file sd_conf text disk) h
          ≡ (put_file sd_conf text disk, some (cf, k)))
unfolding set_up_conf
set_up_conf-copied fgets coord allocated s t card other disk text cf h k f z l n d c b e r =
    let after = put_file sd_conf text disk in
    let first = copy_conf-copied s card disk text f z l n d c in
    let second = copy_conf-Bare t other after b in
    let found = find_file-put_file sd_conf text disk in
    (
      ap₂ (λ x y. (x, y)) first
          (ap (λ x. choose_conf fgets coord allocated s card x h) first
            ∙ choose_conf-card fgets coord allocated s card after text cf h k c.0 f r),
      ap₂ (λ x y. (x, y)) second
          (ap (λ x. choose_conf fgets coord allocated t other x h) second
            ∙ choose_conf-disk fgets coord allocated t other after text cf h k b.0 b.1 found
                (ap (λ x. read_cfg coord allocated x (fgets text) no_conf h) e ∙ r)),
    )
