-- ===== src/Pool/Switch.antt =====
-- What `PageSwitch` does to the disk and the frames when no other request is queued.
use bicycletub.Common.{ℕ, ◌≡◌, refl, true, false, [], arith, ok, if◌then◌else◌, ◌==◌, add64}
use bicycletub.Disk.{content, read_page-content, write_page-content}
use bicycletub.Scheduler.{set_frame}
use bicycletub.Pool.{BufferPoolManager}
use bicycletub.Pool.Fetch.{page_switch}

module _ {D : Type 0} (zero_page : D) where
  abbrev pub on_disk : BufferPoolManager D → ℕ → D
  on_disk s p = content zero_page s.disk_scheduler_.disk_manager_ p

  -- What a transfer leaves alone.
  pub record Kept (s s' : BufferPoolManager D) : Type 0 where
    pub table : s'.page_table_ ≡ s.page_table_
    pub free : s'.free_frames_ ≡ s.free_frames_
    pub replacer : s'.replacer_ ≡ s.replacer_
    pub frame_count : s'.num_frames_ ≡ s.num_frames_
    pub next_id : s'.next_page_id_ ≡ s.next_page_id_
    pub served : s'.disk_scheduler_.request_queue_ ≡ []

  module _ (s : BufferPoolManager D) (idle : s.disk_scheduler_.request_queue_ ≡ []) (p f : ℕ) where
    -- A write puts the frame's bytes on disk, under the page.
    pub page_switch_write :
        (s' : BufferPoolManager D) × (page_switch zero_page true p f s ≡ ok s')
        × Kept s s'
        × (s'.frames_ ≡ s.frames_)
        × ((q : ℕ) → on_disk s' q ≡ (if p == q then (s.frames_ f).data_ else on_disk s q))
    unfolding page_switch
    page_switch_write =
        let (d, e, c) =
          write_page-content zero_page s.disk_scheduler_.disk_manager_ p (s.frames_ f).data_ in
        let s' : BufferPoolManager D = record s {
          disk_scheduler_ = record s.disk_scheduler_ {
            disk_manager_ = d;
            request_queue_ = [];
            scheduled_writes_ = add64 s.disk_scheduler_.scheduled_writes_ 1;
          };
          disk_writes_ = add64 s.disk_writes_ 1;
        } in
        (s', ground arith, ground arith, refl, c)

    -- A read puts the page's bytes in the frame, and changes nothing on disk.
    pub page_switch_read :
        (s' : BufferPoolManager D) × (page_switch zero_page false p f s ≡ ok s')
        × Kept s s'
        × (s'.frames_ ≡ set_frame s.frames_ f (record (s.frames_ f) { data_ = on_disk s p }))
        × ((q : ℕ) → on_disk s' q ≡ on_disk s q)
    unfolding page_switch
    page_switch_read =
        let (d, e, c) = read_page-content zero_page s.disk_scheduler_.disk_manager_ p in
        let s' : BufferPoolManager D = record s {
          disk_scheduler_ = record s.disk_scheduler_ {
            disk_manager_ = d;
            request_queue_ = [];
            scheduled_reads_ = add64 s.disk_scheduler_.scheduled_reads_ 1;
          };
          frames_ = set_frame s.frames_ f (record (s.frames_ f) { data_ = on_disk s p });
          disk_reads_ = add64 s.disk_reads_ 1;
        } in
        (s', ground arith, ground arith, refl, c)
