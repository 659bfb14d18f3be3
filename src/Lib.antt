-- ===== src/Lib.antt =====
-- wlvncc, a VNC client for Wayland: a model of its core and what holds of it.
--
-- The program shows the framebuffer of a VNC server in a window of a Wayland compositor and sends
-- the compositor's input events to the server. Its parts, with the file that models each:
--
--   Keyboard.antt        src/keyboard.c, include/keyboard.h. A keyboard (record Keyboard) holds the
--                        256 slots of the keys that are down, the lights, and the keymap and state
--                        of libxkbcommon. A Run is a keyboard with the key events passed on so far;
--                        *_run are the bodies of the listeners, Keyboard/Handlers.antt has the
--                        listeners themselves, over the collection of keyboards.
--   Pointer.antt         src/pointer.c, include/pointer.h. Buttons, axis counters, focus and cursor
--                        of one pointer; one function per listener.
--   PointerEvents.antt   on_pointer_event of src/main.c: the messages that a pointer frame becomes.
--   Seat.antt            src/seat.c, with registry_add and registry_remove of src/main.c as far as
--                        they are about seats.
--   Output.antt          src/output.c, with wl_surface_enter and wl_surface_leave of src/main.c.
--   Inhibitor.antt       src/inhibitor.c, with on_keyboard_event of src/main.c.
--   Pixels.antt          src/pixels.c.
--   Buffer.antt          src/buffer.c. Buffer/Creation.antt has its functions as the lists of what
--                        they take and give back, path by path.
--   Renderer.antt        src/renderer.c, and the drawing functions of src/renderer-egl.c.
--   VncClient.antt       src/vnc.c: the state of one update. VncClient/Process.antt is the loop over
--                        messages, VncClient/Keys.antt the key events with the table of
--                        src/evdev-to-qnum.c.
--   Window.antt          src/main.c: the three buffers of the window, from on_vnc_client_alloc_fb to
--                        on_vnc_client_update_fb. Window/History.antt composes the callbacks the way
--                        HandleFramebufferUpdate of src/rfbproto.c calls them.
--   Negotiation.antt     the pixel formats that src/main.c takes of those that the compositor offers, and
--                        vnc_client_set_pixel_format of src/vnc.c.
--   OpenH264.antt        src/open-h264.c: the table of decoder contexts, an array of pointers over the
--                        contexts that are allocated.
--   Sockets.antt         src/sockets.c: the buffer between the socket and its reader, and writing.
--   Rfb.antt             src/rfbproto.c: the sets of supported messages, the state that messages read;
--                        Rfb/Messages.antt the functions that send, Rfb/Encodings.antt
--                        SetFormatAndEncodings. Rfb/Parsing.antt is how a server reads them.
--   FrameBuffer.antt     src/vncviewer.c: FillRectangle, CopyRectangle, CopyRectangleFromRectangle.
--   Decoding.antt        HandleRFBServerMessage of src/rfbproto.c (Decoding/Message.antt) and its
--                        HandleFramebufferUpdate (Decoding/Update.antt) with the
--                        encodings of src/encodings/rre.c, corre.c and hextile.c, raw and copies
--                        (Decoding/Rectangles.antt), and src/cursor.c
--                        (Decoding/Cursor.antt). Decoding/Painting.antt has the pictures that RRE
--                        and CoRRE stand for, Decoding/Processing.antt vnc_client_process over the
--                        messages.
--   Handshake.antt       src/rfbproto.c: the choice of a security type, the password, the results;
--                        Handshake/Initialise.antt InitialiseRFBConnection.
--   WlList.antt          the searches along struct wl_list; Base.antt the shared helpers.
--
-- How they interact: the server's rectangles add to the damage of the client (update_box), the end
-- of an update calls the window (finish_update), which hands the damage to its three buffers, draws
-- the back buffer with a renderer, commits it and goes on to the next. Key and pointer listeners
-- change their keyboard or pointer and call the event functions of main.c, which send messages.
--
-- Conventions. A call that may stop the program is an Outcome: done, aborted (assert, abort), fault
-- (what C leaves undefined: a null pointer read, a write out of bounds, an object given back twice,
-- an int that overflows) or endless (a loop that does not end: that of a copy where the framebuffer
-- has no columns). Pointers to Wayland objects are numbers; requests to the compositor
-- and acquired resources are lists, in their order. A call of the outside that may fail is given by
-- its result. Unsigned numbers are ℕ; the numbers of the modelled code stay far from 2^32, but for
-- the coordinates of regions, which pixman keeps in 16 bits: the theorems about regions ask for
-- coordinates up to 32767. Axis values are counted in units of 1/256.
--
-- What stands outside is a parameter: libxkbcommon (Xkb.antt), pixman (Pixman.antt, with the laws
-- that its documentation gives), OpenGL (Renderer.antt), the codes of pixel formats (Pixels.antt),
-- the connection with its handler of messages (VncClient/Process.antt), which Decoding/Processing.antt
-- fills with that of src/rfbproto.c. ReadFromRFBServer runs the main loop before each read, which may
-- read into the same buffer: whether it does is given turn by turn with the connection
-- (Sockets.antt).
--
-- Loops are recursion on their list or their count, but for some on fuel: the scroll loop of
-- on_pointer_event has one round more than the larger count, the loop of vnc_client_process more than
-- the server still sends, and those of ReadFromRFBServer more than the calls of recv and the bytes
-- that are wanted; the runs of a tile of trle have as much as the tile has pixels, and the length of
-- a run as the buffer has bytes. All end by their own test. What recv and write find at each call is
-- given with the connection. The decoders take a read as the next bytes of what the server sends, which is what
-- Sockets/Stream.antt shows ReadFromRFBServer to give; a pixel has 8, 16 or 32 bits and the host is
-- little-endian. A write beyond the framebuffer, beyond client->buffer (307200 bytes), beyond
-- client->raw_buffer or beyond the array of encodings is a fault.
--
-- Not modelled: the set-up of EGL, GBM and the event loop, the creation and the resizing of the
-- window, the decoding of video itself, the opening of sockets, and of the fork of libvncclient the
-- messages of extensions, the authentications that call libraries of TLS, SASL and encryption, and
-- the encodings that decompress (src/encodings: zlib, tight, zrle, ultra). These encodings are
-- callbacks of Decoding/Update.antt, and so is trle, which Decoding/Trle.antt models for pixels that
-- are sent whole. The theorems about messages take the callbacks to keep within memory: for the
-- encodings that decompress it is an assumption, and trle does not with every input
-- (Decoding/Runs/Tiles.antt). They take what is allocated to have columns and fewer than 2^31 cells:
-- what a server with another size of screen brings about is outside them. The theorem about the
-- screen takes the decoders to draw within the rectangle that is announced, where src/encodings
-- compares with the framebuffer only. Coordinates that a pointer event sends are arguments,
-- since the source computes them in floating point.
pub mod Base
pub mod Sockets
pub mod Rfb
pub mod FrameBuffer
pub mod Decoding
pub mod Handshake
pub mod Pixels
pub mod WlList
pub mod Pixman
pub mod VncClient
pub mod Buffer
pub mod Renderer
pub mod Window
pub mod Inhibitor
pub mod Output
pub mod Seat
pub mod Negotiation
pub mod OpenH264
pub mod Xkb
pub mod Keyboard
pub mod Pointer
pub mod PointerEvents
