-- ===== src/Lib.antt =====
-- Verification of parts of ewlibs, a C++ library of portable system, graphics and container code,
-- and of eedit, the editor that stands on it.
--
-- The parts, and the files that model them:
--
-- Utf8: `utf8_codec` of implementation/common/codecs/text/unicode/utf8/utf8.cpp. Utf8/Table is
-- `init`: the loops that fill the state table and the mask table, as writes to a memory. Utf8/Codec
-- is `step`, `count`, `count_new_line`, `put_cp` and the function `decode`; Utf8/Search is
-- `utf8_search_func_object_t`, `search_n`, `rget_cp` and `rsearch_n`. Utf8/Search also has
-- `for_each` of include/ew/core/container/flexible_array.hpp, over the bytes of its pages, and
-- Utf8/Documented the table of the comment in utf8.cpp. Utf8/Sequence, Utf8/Advance, Utf8/Encoding
-- and Utf8/Visiting have the lemmas on sequences of bytes, on a run of steps and on the bytes of a
-- code point; Utf8/Counting, Utf8/Survival, Utf8/Totality, Utf8/Documented, Utf8/Finding,
-- Utf8/Reverse and Utf8/NewLines have the theorems.
--
-- Object: `ew::core::object` of implementation/common/core/object/object.cpp: `set_parent`,
-- `add_child`, `remove_child`, `get_child` and the tests, over a store of objects that are known by
-- their addresses, so that two names of one object are one entry. Object/Links has the invariant on
-- the links, Object/Methods the theorems on the methods.
--
-- Screen: the cells, lines and grids that eedit draws from, of
-- app/eedit/api/include/codepoint_info.h and app/eedit/api/src/screen.cpp. Screen has the cells and
-- the lines, Screen/Grid the grid and its operations, Screen/Lookup the searches by offset and by
-- coordinates. Screen/Bounds, Screen/Writing, Screen/Edits, Screen/Scanning, Screen/Finding and
-- Screen/Pointing have the theorems.
--
-- Pages: the tree of pages of include/ew/core/container/flexible_array.hpp: `build_partitions` and
-- `split_node`, which cut a size, and `find` with its cache. A node is the tree below it, and a
-- pointer to a node is the path from the root. Pages/Partition, Pages/Splitting, Pages/Walk and
-- Pages/Cache have the theorems.
--
-- Handles: `handle_index_allocator` of app/eedit/api/src/handle_table.h: the handles that eedit
-- gives out for its byte buffers and editor buffers. Handles/Allocation and Handles/Handing have
-- the theorems.
--
-- Keymap: the input map of eedit, of app/eedit/core/input/event/input_event_map.hpp, with the
-- handler `eval_input_event` of app/eedit/core/event/process_event.cpp and the names of keys of
-- include/ew/graphics/gui/event/keys.hpp. Keymap has the events, Keymap/Tree the entries and
-- `keymap_insert_sequence`, Keymap/Dispatch the handler, Keymap/Script the parser: Script/Lexing
-- its tokens, Script/Parsing what follows a token, Script/Running its loop. Keymap/Events,
-- Keymap/Levels, Keymap/Binding and Keymap/Refinement, Script/Progress, Script/Tokens and
-- Script/Unicode have the lemmas; Keymap/Updating, Keymap/Proper, Keymap/Typing, Keymap/Sequences
-- and Script/Termination have the theorems. `isalnum`, `isblank`, `tolower` and `strtol` are a
-- parameter (`Libc`), of which the theorems on the parser use that a number is read from the start
-- of the text it stands in.
--
-- Undo: the log of the changes of a buffer, of app/eedit/api/src/buffer_log.cpp. Undo has the
-- commits and the operations on a log, Undo/Table the table that gives out logs by their ids.
-- Undo/Contents is the specification: the text that the changes up to a commit give. Undo/Chain and
-- Undo/Pushing have the lemmas on the links of the commits, Undo/Reverting the theorem on adding a
-- commit, Undo/History those on undo and redo, Undo/Reach what holds of every log that changes,
-- undo and redo lead to.
--
-- Mapped: the pages of a file, `memory_mapped_page` of include/ew/core/container/default_page.hxx,
-- with `release` and `set_data` of include/ew/core/container/simple_array.hpp. The file is a
-- parameter (`File`): what its virtual `map` and `unmap` give, as the build with USE_MMAP_SYSCALL
-- calls them. Mapped/Valid has the state of a page and what one call does to it, Mapped/Sequence
-- copying, sequences of calls and reading.
--
-- Array: `erase` and `resize_insert` of `simple_array`, of
-- include/ew/core/container/simple_array.hpp, over cells of memory. Array/Elements has the list
-- that an array stands for and erasing, Array/Growing inserting in an array that is full; the loop
-- of `nexthigher` has more turns than the size it looks for, which is enough up to 2 ^ 62; the size
-- of an element is a parameter.
--
-- Layout: the layout of the text on a screen, of app/eedit/core/text_layout.cpp, text_layout.hpp
-- and the filters of app/eedit/core/filters. Layout has the elements that the filters pass on,
-- Layout/Decoder is text_decoder.cpp, Layout/Tabs tab_expansion_layout_mode.cpp, Layout/Marks
-- mark_filter.cpp, with what it selects in Layout/Selecting, Layout/Gathering how it collects the
-- marks of app/eedit/api/src/editor_buffer.cpp and editor_view.cpp, Layout/Glyphs the cache of
-- glyphs, Layout/Pen and Layout/Screening screen_layout.cpp, and Layout/Building `build_layout` and
-- `build_screen_layout`. Layout/Expanding and Layout/Decoding have what the first filters write,
-- Layout/Room, Layout/Placing, Layout/Fitting, Layout/Rounds, Layout/Looping, Layout/Turning,
-- Layout/Showing and Layout/Ending what the screen filter does with the pen and the screen,
-- Layout/Running and Layout/Finishing the whole pipe. The loop of the screen filter has the number
-- of the inputs, the height of the screen in pixels and one as fuel: each round takes an input or
-- moves the pen down. The loop of the pipe has the size of the buffer and two: each round but the
-- last reads on.
--
-- Codec: the registry of codecs of app/eedit/api/src/codec.cpp and text_codec.cpp, and in
-- Codec/Ascii the ASCII codec of app/eedit/modules/codec/text/module_text_codec_ascii.cpp.
-- Codec/Registering, Codec/Reading, Codec/Decoding, Codec/Backward and Codec/Writing have the
-- theorems. What the layout relies on of a codec is the record `Reads` of Layout/Decoding, which
-- Codec/Reading fills for ASCII; what the codec relies on of a buffer is `ReadsBytes`, and for
-- writing `Keeps`. What the layout relies on of a font is the record `Fonts` of Layout/Room, about
-- code points from the space on, as the screen filter asks for no other; a font may lack glyphs.
--
-- Base passes on the library's names, and has the Boolean tests, the list functions, the operations
-- on bits and the memory that the parts share.
--
-- How the parts meet: eedit decodes the bytes of a buffer with the codec, and writes the code
-- points it gets, with their offsets, in the cells of a screen; the widgets that show a screen are
-- objects in the tree. A buffer's bytes are in the pages of a tree. The parser of an input map
-- reads a quoted character with the codec. The parts share no state.
--
-- Conventions. Numbers are natural numbers; a wrap-around at 8, 32 or 64 bits is written out, and a
-- signed 32-bit number is its bit pattern. An assertion that fails, a null pointer that is read,
-- and an index out of range are faults: the operation gives `none`. The address one past the end of
-- a vector, through which nothing is read or written, is no fault. Loops over bytes, lines and
-- columns are recursions on the number of turns that are left, which the source's own bounds give,
-- so there is no other fuel there. The recursions of Pages are on fuel; a turn for each unit of the
-- size is enough, and the theorems show it. The loop of the parser of an input map has a turn for
-- each byte of the text, and the loop of `parse_unicode` eight turns; the theorems on termination
-- show that both are enough.
--
-- Not modelled: mutexes and destructors, the layout filters that no pipe uses, the pixel sizes and
-- flags of a screen that only have a setter and a getter, windows, fonts, the renderer, sockets,
-- files, the byte buffers of app/eedit/api/src/byte_buffer.cpp, the platform layer, and what is put
-- in an array that has room. `float` is not a type of the model: what the screen uses of it is a
-- parameter (`Floats`).
pub mod Base
pub mod Utf8
pub mod Object
pub mod Screen
pub mod Pages
pub mod Handles
pub mod Keymap
pub mod Undo
pub mod Mapped
pub mod Array
pub mod Layout
pub mod Codec
