-- ===== src/Lib.antt =====
-- FLIMG sends files over radio with the Amp protocol, through fldigi. A file is encoded as text
-- (base64, base128 or base256), cut into blocks and sent, each block with a header of its tag, its
-- length and its CRC. The receiving side puts what fldigi delivers into a ring of bytes, looks for
-- the tags in it, checks each block's CRC and collects the blocks of a file.
--
-- The files and what they model:
--   Prelude        shared names, tests, lists, laws of the bit operations
--   Cstd           %d of snprintf and sscanf, and find, of the C and C++ libraries
--   Crc16          class Ccrc16 of src/include/crc16.h
--   Escape, Lines  escape, addlf and remlf of src/utils/base128.cxx and src/utils/base256.cxx
--   Base128        encode and decode of src/utils/base128.cxx
--   Base256        encode and decode of src/utils/base256.cxx
--   Base64         src/utils/base64.cxx
--   CircularQueue  Circular_queue of src/utils/circular_queue.cxx and src/include/circular_queue.h
--   IntMap         std::map<int, std::string>, with its laws
--   Amp            the blocks of a file in src/utils/amp.cxx and src/include/amp.h: data_block,
--                  xmt_calc_numblocks, rx_add_data, rx_completed and rx_recvd_string
--   Amp/Reports    rx_missing, rx_report and reformat_missing_blocks of src/utils/amp.cxx
--   Amp/Headers    the header functions, clear_rx and rx_parse_line of src/utils/amp.cxx
--   Amp/Sending    xmt_string of src/utils/amp.cxx
--   Amp/Incoming   tx_parse_report of src/utils/amp.cxx
--   GlobalAmp      cAmpGlobal of src/utils/global_amp.cxx: the vector of amps and the selected one
--   TagSearch      the table of tags and the parser's loop of src/utils/tagSearch.cxx
--   Frames         process_que of src/flimg.cxx, up to the handing over of a frame
--   Receive        process_data_stream of src/flimg.cxx, with rx_parse_buffer of src/utils/amp.cxx
--   Missing        process_missing_stream of src/flimg.cxx
--   Date           class Date of src/widgets/date.cxx
--   Util           the string helpers of src/utils/util.cxx
--   Timing         the timing table of the modems, src/utils/time_table.cxx, with the names in
--                  src/utils/time_table_dat.cxx; the arithmetic of float is a parameter
--   PlainText      isPlainText of src/utils/file_io.cxx, convert_to_plain_text of
--                  src/utils/amp.cxx
--   Compress       compress_maybe and decompress_maybe of src/utils/file_io.cxx, LZMA a parameter
--
-- A text is the list of its bytes, as native numbers. A function that changes an object returns
-- the new state. Loops are recursions on lists or on counts. Four have fuel: the decimal print has
-- the number itself, which exceeds the number of its digits, and the loop of
-- reformat_missing_blocks the length of its text, of which each turn takes a part. So have the
-- loops of xmt_string and tx_parse_report over their texts.
--
-- The parts meet as follows. CircularQueue holds what arrives; TagSearch finds a tag in it and
-- calls Frames, which checks the CRC of the frame behind the tag; Receive finds the amp that the
-- frame belongs to and reads its line there, and Missing the amps that a report is on; Amp and its
-- children read the line's text at the receiving half, and a report at the sending half.
--
-- Not modelled: xmt_vector_string, tx_relay_string and the setters of the amps; the transmit queue
-- and the script runner; copies of other projects' libraries (LZMA, XML-RPC); and windows, sockets,
-- threads, clocks and the file system, which only call the system.
pub mod Prelude
pub mod Cstd
pub mod Crc16
pub mod Escape
pub mod Lines
pub mod Base256
pub mod Base128
pub mod Base64
pub mod CircularQueue
pub mod IntMap
pub mod Amp
pub mod GlobalAmp
pub mod PlainText
pub mod TagSearch
pub mod Frames
pub mod Date
pub mod Util
pub mod Compress
pub mod Receive
pub mod Timing
pub mod Missing
