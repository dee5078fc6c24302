-- ===== src/Tests/UsbRuns.antt =====
-- The pipes of src/usb/bulk_io.rs, src/libusbk/io.rs and src/apple_mux/io.rs on concrete inputs.
use netmuxd.Base.{ℕ, ◌≡◌, refl, false, List, [], ◌∷◌, ◌++◌, ok, arith}
use netmuxd.Usb.Poll.{Outcome, not_yet, done, failed, ready}
use netmuxd.Usb.BulkWriter.{BulkWriter, new_writer, with_max_out}
use netmuxd.Usb.WriterTask.{poll_task, writer_task}
use netmuxd.Usb.Boundaries.{IsFront, received, observe_all}
use netmuxd.Usb.Deliveries.{IsNew, poll_task-IsFront}
use netmuxd.Usb.BulkReader.{BulkReader, new_reader}
use netmuxd.Usb.PipeReader.{PipeReader, new_pipe_reader, apple_buffer}
use netmuxd.Usb.PipeWriter.{PipeWriter, new_pipe_writer}
use netmuxd.Usb.Messages.{write_polls, write_polls_lem}
use netmuxd.Usb.Stream.{read_many, bytes_of_all, AllFit}
use netmuxd.Usb.Readers.{pipe_reader, pipe_stream, poll_pipe-stream}
use netmuxd.Usb.BulkStream.{bulk_reader, bulk_stream, poll_read-stream}

-- Packets of two bytes and transfers of two packets.
abbrev writer : BulkWriter
writer =
    with_max_out
      (new_writer (record {
        max_packet_size = 2;
        submitted = [];
        outcomes = not_yet ∷ done tt ∷ done tt ∷ done tt ∷ failed ∷ [];
      }))
      4

abbrev frames : List (List ℕ)
frames = (1 ∷ 2 ∷ 3 ∷ 4 ∷ 5 ∷ 6 ∷ []) ∷ (7 ∷ []) ∷ []

writer-IsNew : IsNew 2 writer
writer-IsNew = record {
  positive = omega arith;
  packet = refl;
  room = omega arith;
  aligned = refl;
  unused = refl;
  no_bytes = refl;
}

poll_task-IsFront_example :
    IsFront frames (received 2 (poll_task 9 (writer_task writer frames)).writer)
poll_task-IsFront_example =
    poll_task-IsFront 2 writer frames 9 writer-IsNew (omega arith, (omega arith, tt))

abbrev transfers : List (Outcome (List ℕ))
transfers = done (1 ∷ 2 ∷ 3 ∷ []) ∷ not_yet ∷ done [] ∷ done (4 ∷ []) ∷ []

abbrev in_pipe : PipeReader
in_pipe = new_pipe_reader transfers

poll_pipe-stream_example :
    (pipe_stream in_pipe
      ≡ bytes_of_all (read_many (pipe_reader apple_buffer) in_pipe (2 ∷ 2 ∷ 5 ∷ [])).1
        ++ pipe_stream (read_many (pipe_reader apple_buffer) in_pipe (2 ∷ 2 ∷ 5 ∷ [])).0)
    × AllFit (2 ∷ 2 ∷ 5 ∷ []) (read_many (pipe_reader apple_buffer) in_pipe (2 ∷ 2 ∷ 5 ∷ [])).1
poll_pipe-stream_example =
    poll_pipe-stream apple_buffer in_pipe (2 ∷ 2 ∷ 5 ∷ [])
      (omega arith, (omega arith, (omega arith, tt)))

abbrev in_bulk : BulkReader
in_bulk = new_reader (record { max_packet_size = 512; submitted = 0; outcomes = transfers }) 16384

poll_read-stream_example :
    (bulk_stream in_bulk
      ≡ bytes_of_all (read_many bulk_reader in_bulk (2 ∷ 2 ∷ 5 ∷ [])).1
        ++ bulk_stream (read_many bulk_reader in_bulk (2 ∷ 2 ∷ 5 ∷ [])).0)
    × AllFit (2 ∷ 2 ∷ 5 ∷ []) (read_many bulk_reader in_bulk (2 ∷ 2 ∷ 5 ∷ [])).1
poll_read-stream_example =
    poll_read-stream in_bulk (2 ∷ 2 ∷ 5 ∷ []) tt (omega arith, (omega arith, (omega arith, tt)))

abbrev out_pipe : PipeWriter
out_pipe = new_pipe_writer 2 (not_yet ∷ done tt ∷ failed ∷ [])

write_polls_lem_example :
    (w' : PipeWriter) × (write_polls 1 out_pipe (1 ∷ 2 ∷ []) ≡ (w', ready (ok 2)))
    × (w'.busy ≡ false)
    × (w'.outcomes ≡ failed ∷ [])
    × (observe_all 2 ([], []) w'.transfers ≡ ((1 ∷ 2 ∷ []) ∷ [], []))
write_polls_lem_example =
    write_polls_lem out_pipe 1 (2 ∷ []) 1 (failed ∷ []) [] (omega arith) refl refl refl
